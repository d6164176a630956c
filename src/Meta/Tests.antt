-- ===== src/Meta/Tests.antt =====
-- The properties of the Meta Service at a small repository and libraries that hide nothing.
use n.Base.{
  ℕ, suc, ◌≡◌, ◌≤◌, refl, sym, ap, ◌∙◌, false, ◌&&◌, List, [], ◌∷◌, ◌++◌, Option, none, some, Bytes,
  codes, length, length-append, eq, eq_refl, ascii, trim_space, ltb, if◌then◌else◌, arith,
}
use n.Job.Backend.{Error, message, Result, ok, err}
use n.Shared.Crypto.Tests.{zeros, params, library, encrypter, encrypted, drawn_length}
use n.Meta.Types.{
  TableInfo, SchemaSnapshot, Connection, PluginDefinition, User, Repository, CmClient, Libraries,
  MetaService,
}
use n.Shared.Crypto.Roundtrip.{Sealed}
use n.Worker.Value.{Fields}
use n.Shared.Crypto.{encrypt_json, decrypt_json, cipher}
use n.Meta.App.{create_connection, with_params, dated}
use n.Meta.App.Connections.{Stored, create_connection-AtRest}
use n.Meta.Plugins.Registration.{Outcome, register_plugin-Outcome}
use n.Meta.Schema.{get_schema, table_of}
use n.Meta.Schema.Cache.{Cached, Answered, get_schema-get_schema}
use n.Meta.Server.{CreateConnectionRequest, requested}
use n.Meta.Server.Creation.{Created, serve_creation-Created}
use n.Meta.Users.{register_user, normalize_email}
use n.Meta.Users.Login.{Account, LoggedIn, login_user-register_user, register_user-password}

record State : Type 0 where
  users : List User
  connections : List Connection
  snapshots : List SchemaSnapshot

abbrev with_id : Bytes → Connection → Connection
with_id id c = record {
  id = id;
  workspace_id = c.workspace_id;
  user_id = [];
  tenant_id = c.tenant_id;
  name = c.name;
  adapter_type = c.adapter_type;
  params = c.params;
  created_at = c.created_at;
}

abbrev find_connection : Bytes → Bytes → List Connection → Option Connection
find_connection id tenant [] = none
find_connection id tenant (c ∷ rest) =
    let later = find_connection id tenant rest in
    if eq c.id id && eq c.tenant_id tenant then some c else later

abbrev find_user : Bytes → List User → Option User
find_user email [] = none
find_user email (u ∷ rest) =
    let later = find_user email rest in if eq u.email email then some u else later

abbrev find_snapshot : Bytes → List SchemaSnapshot → Option SchemaSnapshot
find_snapshot id [] = none
find_snapshot id (x ∷ rest) =
    let later = find_snapshot id rest in if eq x.connection_id id then some x else later

-- A snapshot joined to its connection.
abbrev snapshot_for : Bytes → State → Option Connection → Option SchemaSnapshot
snapshot_for id s none = none
snapshot_for id s (some c) = find_snapshot id s.snapshots

abbrev numbered : {A : Type 0} → List A → Bytes
numbered xs = length xs ∷ []

abbrev created : Connection → State → Result Bytes × State
created c s = (
  ok (numbered s.connections),
  record {
    users = s.users;
    connections = with_id (numbered s.connections) c ∷ s.connections;
    snapshots = s.snapshots;
  },
)

abbrev user_of : Bytes → Bytes → Bytes → Bytes → Bytes → User
user_of id email hash salt role = record {
  id = id;
  email = email;
  password_hash = hash;
  password_salt = salt;
  role = role;
  created_at = 1;
}

abbrev user_created : Bytes → Bytes → Bytes → Bytes → State → Result Bytes × State
user_created email hash salt role s = (
  ok (numbered s.users),
  record {
    users = user_of (numbered s.users) email hash salt role ∷ s.users;
    connections = s.connections;
    snapshots = s.snapshots;
  },
)

abbrev snapshot_saved : Bytes → List TableInfo → State → Option Error × State
snapshot_saved id tables s = (
  none,
  record {
    users = s.users;
    connections = s.connections;
    snapshots = record { connection_id = id; tables = tables; captured_at = 1 } ∷ s.snapshots;
  },
)

abbrev repository : Repository
repository = record {
  State = State;
  list_workspaces = λ u l o s. ok [];
  get_schema_snapshot = λ c t s. ok (snapshot_for c s (find_connection c t s.connections));
  save_schema_snapshot = snapshot_saved;
  create_connection = created;
  get_connection = λ c t s. ok (find_connection c t s.connections);
  list_connections = λ u w l o s. ok s.connections;
  delete_connection = λ c t s. (none, s);
  register_plugin = λ p s. (ok (codes "p"), s);
  create_user = user_created;
  get_user_by_email = λ e s. ok (find_user e s.users);
  get_user_by_id = λ i s. ok none;
  create_workspace = λ u t n s. (ok (codes "w"), s);
  create_agent = λ u n s. (ok (codes "a"), s);
  list_agents_by_user = λ u s. ok [];
  get_agent = λ a s. ok none;
  update_agent_token_jti = λ a j s. (none, s);
}

abbrev hashed : Bytes → Result Bytes
hashed x = if ltb 72 (length x) then err (message (codes "too long")) else ok (b'#' ∷ x)

abbrev same_hash : Bytes → Bytes → Option Error
same_hash hash x =
    if eq hash (b'#' ∷ x) then none else some (message (codes "mismatched hash and password"))

abbrev pub libraries : Libraries
libraries = record {
  unicode = ascii;
  cipher = library;
  parse_address = λ x. ok x;
  split_host_port = λ x. none;
  quote = λ x. x;
  read_random = λ k. ok (zeros k);
  encode_raw_url = λ x. x ++ zeros 6;
  generate_hash = hashed;
  compare_hash = same_hash;
  new_struct = λ m. ok m;
}

abbrev tables : List TableInfo
tables = record { name = codes "orders"; columns = [] } ∷ []

-- A Connection Manager that counts the requests it gets.
abbrev pub counting : CmClient
counting = record { State = ℕ; get_schema = λ r k. (ok tables, suc k) }

abbrev service : MetaService
service = record {
  repo = repository;
  cm_cli = counting;
  crypto = some encrypter;
  libraries = libraries;
}

abbrev nothing : State
nothing = record { users = []; connections = []; snapshots = [] }

finds_user :
    (e h t r i : Bytes) (old new : State)
    → user_created e h t r old ≡ (ok i, new)
    → Account service i e h t r new
finds_user e h t r i old new k = record {
  user = user_of i e h t r;
  found =
      ap (λ s. ok (find_user e s.users)) (sym (ap (λ x. x.1) k))
      ∙ rw (eq_refl e) (ap (λ j. ok (some (user_of j e h t r))) (cc k));
  id_is = refl;
  hash_is = refl;
  salt_is = refl;
  role_is = refl;
}

accepts_hash : (x hash : Bytes) → hashed x ≡ ok hash → same_hash hash x ≡ none
accepts_hash x hash h = ground (arith, h, eq_refl (b'#' ∷ x))

short_input : (x hash : Bytes) → hashed x ≡ ok hash → length x ≤ 72
short_input x hash h = ground (arith, h)

length-raw_url : (x : Bytes) → length x ≡ 16 → length (x ++ zeros 6) ≡ 22
length-raw_url x h = let e = length-append x (zeros 6) in omega (arith, e, h)

abbrev password : Bytes
password = codes "correct horse"

abbrev hash : Bytes
hash = b'#' ∷ (password ++ (b':' ∷ zeros 22))

abbrev with_a_user : State
with_a_user = record {
  users = user_of (0 ∷ []) (codes "a@b") hash (zeros 22) (codes "user") ∷ [];
  connections = [];
  snapshots = [];
}

a_user_registered :
    register_user service (codes " A@b") password (codes "admin") nothing
    ≡ (ok (0 ∷ []), with_a_user)
unfolding register_user normalize_email eq trim_space
a_user_registered = refl

register_user-password_example : (12 ≤ length password) × (length password ≤ 49)
register_user-password_example =
    register_user-password service (codes " A@b") password (codes "admin") (0 ∷ []) nothing
      with_a_user short_input drawn_length length-raw_url a_user_registered

same_address : normalize_email service (codes "a@B ") ≡ normalize_email service (codes " A@b")
unfolding normalize_email eq trim_space
same_address = refl

login_user-register_user_example :
    LoggedIn service (codes "a@B ") password (0 ∷ []) (codes "user") with_a_user
login_user-register_user_example =
    login_user-register_user service (codes " A@b") (codes "a@B ") password (codes "admin") (0 ∷ [])
      nothing with_a_user finds_user (λ a b name e old. refl) accepts_hash same_address
      a_user_registered

abbrev a_plugin : PluginDefinition
a_plugin = record {
  plugin_type = codes "adapter";
  name = codes "oracle";
  version = codes "1";
  author = [];
  endpoint = codes "oracle:9000";
  protocol = [];
  status = [];
  tenant_id = codes " ";
  is_global = false;
  created_at = 0;
}

register_plugin-Outcome_example : Outcome service 5 a_plugin nothing
register_plugin-Outcome_example = register_plugin-Outcome service 5 a_plugin nothing

abbrev requested_connection : CreateConnectionRequest
requested_connection = record {
  workspace_id = codes "w";
  tenant_id = codes "t";
  name = codes "main";
  adapter_type = codes "postgres";
  params = params;
}

abbrev a_connection : Connection
a_connection = requested service requested_connection

abbrev with_a_connection : State
with_a_connection = record {
  users = [];
  connections = with_id (0 ∷ []) (with_params (dated 5 a_connection) encrypted) ∷ [];
  snapshots = [];
}

a_connection_created :
    create_connection service 5 a_connection nothing ≡ (ok (0 ∷ []), with_a_connection)
unfolding create_connection encrypt_json cipher
a_connection_created = refl

create_connection-AtRest_example :
    (params : Fields) × Sealed service.libraries.cipher encrypter.key a_connection.params params
    × (created (with_params (dated 5 a_connection) params) nothing
        ≡ (ok (0 ∷ []), with_a_connection))
create_connection-AtRest_example =
    create_connection-AtRest service 5 encrypter a_connection (0 ∷ []) nothing with_a_connection
      refl a_connection_created

finds_connection :
    (d : Connection) (i : Bytes) (old new : State)
    → created d old ≡ (ok i, new)
    → Stored service i d new
finds_connection d i old new k =
    let q : numbered old.connections ≡ i = cc k in
    record {
      stored = with_id i d;
      found =
          ap (λ s. ok (find_connection i d.tenant_id s.connections)) (sym (ap (λ x. x.1) k))
          ∙ (ap (λ j. ok (find_connection i d.tenant_id (with_id j d ∷ old.connections))) q
              ∙ rw (eq_refl i) (rw (eq_refl d.tenant_id) refl));
      id_is = refl;
      tenant_is = refl;
      name_is = refl;
      adapter_is = refl;
      params_are = refl;
    }

serve_creation-Created_example :
    Created service 5 requested_connection (0 ∷ []) nothing with_a_connection
serve_creation-Created_example =
    serve_creation-Created service 5 requested_connection (0 ∷ []) nothing with_a_connection
      drawn_length (λ gcm x p n. refl) (λ x. refl) (λ p h. refl) finds_connection
      a_connection_created

caches :
    (conn : Connection) (ts : List TableInfo) (old new : State)
    → repository.get_connection (0 ∷ []) (codes "t") old ≡ ok (some conn)
    → snapshot_saved (0 ∷ []) ts old ≡ (none, new)
    → Cached service (0 ∷ []) (codes "t") ts new
caches conn ts old new f k =
    let c = ap (λ x. x.1) k in
    let q : find_connection (0 ∷ []) (codes "t") old.connections ≡ some conn = cc f in
    record {
      snapshot = record { connection_id = 0 ∷ []; tables = ts; captured_at = 1 };
      found =
          ap (λ s. repository.get_schema_snapshot (0 ∷ []) (codes "t") s) (sym c)
          ∙ rw q (rw (eq_refl (0 ∷ [])) refl);
      tables_are = refl;
    }

abbrev with_a_schema : State
with_a_schema = (snapshot_saved (0 ∷ []) tables with_a_connection).1

abbrev a_snapshot : SchemaSnapshot
a_snapshot = record { connection_id = 0 ∷ []; tables = tables; captured_at = 7 }

a_schema_fetched :
    get_schema service 7 (0 ∷ []) (codes "t") (with_a_connection, 0)
    ≡ (ok a_snapshot, (with_a_schema, 1))
unfolding get_schema decrypt_json cipher eq table_of
a_schema_fetched = refl

schema_cached : Answered service 9 (0 ∷ []) (codes "t") tables with_a_schema 1
schema_cached =
    get_schema-get_schema service 7 9 (0 ∷ []) (codes "t") a_snapshot with_a_connection
      with_a_schema 0 1 1 caches a_schema_fetched
