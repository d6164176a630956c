-- ===== src/Meta/Postgres/Tests.antt =====
-- The repository over a small database of two tables.
use n.Base.{
  ℕ, ◌≡◌, refl, sym, ap, ◌∙◌, ◌&&◌, List, [], ◌∷◌, some, Bytes, codes, length, eq, eq_refl,
  if◌then◌else◌,
}
use n.Job.Backend.{job_not_found, ok}
use n.Shared.Crypto.Tests.{params, encrypter}
use n.Meta.Types.{Connection}
use n.Meta.App.Connections.{Stored}
use n.Meta.Users.Login.{Account}
use n.Meta.Tests.{libraries, counting}
use n.Meta.Postgres.{
  Cell, uuid, str, json, time, Scanned, row, no_rows, failed, not_queried, Database,
}
use n.Meta.Postgres.Connections.{create_connection}
use n.Meta.Postgres.People.{create_user}
use n.Meta.Postgres.Refinement.{
  HasConnection, service, create_connection-Stored, create_user-Account,
}

-- A connection with its key, and a user with its address.
abbrev State : Type 0
State = List (Bytes × Bytes × List Cell) × List (Bytes × List Cell)

abbrev find : Bytes → Bytes → List (Bytes × Bytes × List Cell) → Scanned
find id tenant [] = no_rows
find id tenant ((i, t, cells) ∷ rest) =
    let later = find id tenant rest in if eq i id && eq t tenant then row cells else later

abbrev find_user : Bytes → List (Bytes × List Cell) → Scanned
find_user email [] = no_rows
find_user email ((e, cells) ∷ rest) =
    let later = find_user email rest in if eq e email then row cells else later

abbrev numbered : {A : Type 0} → List A → Bytes
numbered xs = length xs ∷ []

abbrev select : List Cell → State → Scanned
select (str id ∷ str tenant ∷ []) (connections, users) = find id tenant connections
select (str email ∷ []) (connections, users) = find_user email users
select cells s = no_rows

abbrev insert_cells : List Cell → State → Scanned × State
insert_cells (uuid ws ∷ uuid user ∷ str tenant ∷ str name ∷ str adapter ∷ json config ∷ [])
      (connections, users) =
    let id = numbered connections in
    let cells =
      uuid id ∷ uuid ws ∷ str tenant ∷ str name ∷ str adapter ∷ json config ∷ time 1 ∷ [] in
    (row (uuid id ∷ []), ((id, tenant, cells) ∷ connections, users))
insert_cells (str email ∷ str hash ∷ str salt ∷ str role ∷ []) (connections, users) =
    let id = numbered users in
    let cells = uuid id ∷ str email ∷ str hash ∷ str salt ∷ str role ∷ time 1 ∷ [] in
    (row (uuid id ∷ []), (connections, (email, cells) ∷ users))
insert_cells cells s = (failed job_not_found, s)

-- JSON is known for the one map of the test.
abbrev database : Database
database = record {
  State = State;
  select_row = λ q cells s. select cells s;
  select_rows = λ q cells s. not_queried job_not_found;
  insert_row = λ q cells s. insert_cells cells s;
  exec = λ q cells s. (ok 1, s);
  scan_error = job_not_found;
  no_rows_error = job_not_found;
  parse_uuid = λ x. ok x;
  marshal_params = λ m. ok (codes "{}");
  unmarshal_params = λ p. ok params;
  marshal_tables = λ ts. ok [];
  unmarshal_tables = λ p. ok [];
}

has_connection :
    (ws user tenant name adapter config i : Bytes) (old new : State)
    → insert_cells
        (uuid ws ∷ uuid user ∷ str tenant ∷ str name ∷ str adapter ∷ json config ∷ [])
        old
      ≡ (row (uuid i ∷ []), new)
    → HasConnection database i ws tenant name adapter config new
has_connection ws user tenant name adapter config i (connections, users) new h =
    let q : numbered connections ≡ i = cc h in
    let e = ap (λ x. x.1) h in
    record {
      stored_config = config;
      created_at = 1;
      reads_alike = refl;
      found =
          ap (λ s. select (str i ∷ str tenant ∷ []) s) (sym e)
          ∙ rw q (rw (eq_refl i) (rw (eq_refl tenant) refl));
    }

has_user :
    (e h t r i : Bytes) (old new : State)
    → insert_cells (str e ∷ str h ∷ str t ∷ str r ∷ []) old ≡ (row (uuid i ∷ []), new)
    → (at : ℕ) × (select (str e ∷ []) new
        ≡ row (uuid i ∷ str e ∷ str h ∷ str t ∷ str r ∷ time at ∷ []))
has_user e h t r i (connections, users) new k =
    let q : numbered users ≡ i = cc k in
    let w = ap (λ x. x.1) k in
    (1, ap (λ s. select (str e ∷ []) s) (sym w) ∙ rw q (rw (eq_refl e) refl))

abbrev a_connection : Connection
a_connection = record {
  id = [];
  workspace_id = codes "w";
  user_id = codes "u";
  tenant_id = codes "t";
  name = codes "main";
  adapter_type = codes "postgres";
  params = params;
  created_at = 0;
}

abbrev connection_cells : List Cell
connection_cells =
    uuid (0 ∷ [])
    ∷ uuid (codes "w")
    ∷ str (codes "t")
    ∷ str (codes "main")
    ∷ str (codes "postgres")
    ∷ json (codes "{}")
    ∷ time 1
    ∷ []

abbrev with_a_connection : State
with_a_connection = ((0 ∷ [], codes "t", connection_cells) ∷ [], [])

connection_created :
    create_connection database a_connection ([], []) ≡ (ok (0 ∷ []), with_a_connection)
unfolding create_connection
connection_created = refl

create_connection-Stored_example :
    Stored
      (service database counting (some encrypter) libraries)
      (0 ∷ [])
      a_connection
      with_a_connection
create_connection-Stored_example =
    create_connection-Stored database counting (some encrypter) libraries a_connection (0 ∷ [])
      ([], []) with_a_connection has_connection (λ p h. refl) connection_created

abbrev with_a_user : State
with_a_user = (
  [],
  (
    codes "a@b",
    uuid (0 ∷ [])
        ∷ str (codes "a@b")
        ∷ str (codes "hash")
        ∷ str (codes "salt")
        ∷ str (codes "user")
        ∷ time 1
        ∷ [],
  )
      ∷ [],
)

user_created :
    create_user database (codes "a@b") (codes "hash") (codes "salt") (codes "user") ([], [])
    ≡ (ok (0 ∷ []), with_a_user)
unfolding create_user
user_created = refl

user_stored :
    Account
      (service database counting (some encrypter) libraries)
      (0 ∷ [])
      (codes "a@b")
      (codes "hash")
      (codes "salt")
      (codes "user")
      with_a_user
user_stored =
    create_user-Account database counting (some encrypter) libraries (codes "a@b") (codes "hash")
      (codes "salt") (codes "user") (0 ∷ []) ([], []) with_a_user has_user user_created
