-- ===== src/Meta/App.antt =====
-- internal/app/app.go: the methods of `MetaService`. A method gets the state of the repository and
-- gives the new one beside its results; `now` is what `time.Now` answers. The UUID that stands
-- beside an error is `uuid.Nil`, which no caller reads.
pub mod Connections
use n.Base.{
  ℕ, Bool, true, false, not, List, [], ◌∷◌, ◌++◌, map, Option, none, some, Bytes, Signed, codes,
  length, eq, is_empty, is_positive, ltb, ◌==◌, ◌&&◌, ◌||◌, trim_space, if◌then◌else◌,
}
use n.Job.Backend.{Error, message, wrap, Result, ok, err}
use n.Worker.Value.{Fields}
use n.Shared.Crypto.{encrypt_json, decrypt_json}
use n.Meta.Types.{
  Workspace, TableInfo, SchemaSnapshot, Connection, PluginDefinition, User, Agent, SchemaRequest,
  MetaService,
}

-- `if limit <= 0 { limit = 20 }`
abbrev pub limit_of : Signed → Signed
limit_of limit = if is_positive limit then limit else (false, 20)

abbrev pub with_params : Connection → Fields → Connection
with_params c params = record c { params = params }

-- `if c.CreatedAt.IsZero() { c.CreatedAt = time.Now().UTC() }`
abbrev pub dated : ℕ → Connection → Connection
dated now c = if c.created_at == 0 then record c { created_at = now } else c

-- `hashPasswordInput`.
unfoldable pub hash_password_input : Bytes → Bytes → Bytes
hash_password_input password [] = password
hash_password_input password (x ∷ salt) = password ++ (codes ":" ++ (x ∷ salt))

module _ {S : Type 0} where
  -- An error of the repository under the name of the call, or its value.
  abbrev pub named_as : {A : Type 0} → Bytes → Result A × S → Result A × S
  named_as prefix (err e, s) = (err (wrap prefix e), s)
  named_as prefix (ok x, s) = (ok x, s)

module _ (svc : MetaService) where
  -- `CreateConnection`, behind `EncryptJSON`.
  abbrev pub encrypted_as :
      Connection → Result Fields → svc.repo.State → Result Bytes × svc.repo.State
  encrypted_as c (err e) s = (err (wrap (codes "encrypt params") e), s)
  encrypted_as c (ok params) s =
      named_as (codes "create connection") (svc.repo.create_connection (with_params c params) s)

  -- `CreateConnection`.
  unfoldable pub create_connection : ℕ → Connection → svc.repo.State → Result Bytes × svc.repo.State
  create_connection now c s =
      encrypted_as (dated now c) (encrypt_json svc.libraries.cipher svc.crypto c.params) s

  abbrev pub decrypted : Connection → Result Fields → Result (Option Connection)
  decrypted c (err e) = err (wrap (codes "decrypt params") e)
  decrypted c (ok params) = ok (some (with_params c params))

  abbrev pub got_connection : Result (Option Connection) → Result (Option Connection)
  got_connection (err e) = err (wrap (codes "get connection") e)
  got_connection (ok none) = ok none
  got_connection (ok (some c)) = decrypted c (decrypt_json svc.libraries.cipher svc.crypto c.params)

  -- `GetConnection`.
  unfoldable pub get_connection : Bytes → Bytes → svc.repo.State → Result (Option Connection)
  get_connection connection_id tenant_id s =
      got_connection (svc.repo.get_connection connection_id tenant_id s)

  abbrev decrypted_next :
      Connection → Result Fields → Result (List Connection) → Result (List Connection)
  decrypted_next c (err e) rest = err (wrap (codes "decrypt params for connection " ++ c.id) e)
  decrypted_next c (ok params) (err e) = err e
  decrypted_next c (ok params) (ok rest) = ok (with_params c params ∷ rest)

  -- The loop of `ListConnections`.
  unfoldable pub decrypt_all : List Connection → Result (List Connection)
  decrypt_all [] = ok []
  decrypt_all (c ∷ rest) =
      decrypted_next c (decrypt_json svc.libraries.cipher svc.crypto c.params) (decrypt_all rest)

  abbrev pub listed : Result (List Connection) → Result (List Connection)
  unfolding decrypt_all
  listed (err e) = err e
  listed (ok conns) = decrypt_all conns

  -- `ListConnections`.
  unfoldable pub list_connections :
      Bytes → Bytes → Signed → Signed → svc.repo.State → Result (List Connection)
  list_connections user_id workspace_id limit offset s =
      listed (svc.repo.list_connections user_id workspace_id (limit_of limit) offset s)

  abbrev deleted : Option Error × svc.repo.State → Option Error × svc.repo.State
  deleted (some e, s) = (some (wrap (codes "delete connection") e), s)
  deleted (none, s) = (none, s)

  -- `DeleteConnection`.
  unfoldable pub delete_connection : Bytes → Bytes → svc.repo.State → Option Error × svc.repo.State
  delete_connection connection_id tenant_id s =
      deleted (svc.repo.delete_connection connection_id tenant_id s)

  -- `ListWorkspaces`.
  unfoldable pub list_workspaces :
      Bytes → Signed → Signed → svc.repo.State → Result (List Workspace)
  list_workspaces user_id limit offset s =
      svc.repo.list_workspaces user_id (limit_of limit) offset s
