-- ===== src/Meta/Postgres.antt =====
-- internal/repository/postgres.go: `PostgresRepository`. The pool, JSON and the parsing of UUIDs are
-- the parameter `Database`; the SQL of a statement, which PostgreSQL alone reads, is written with
-- single spaces.
pub mod Connections
pub mod People
pub mod Refinement
pub mod Snapshots
mod SnapshotTests
mod Tests
use n.Base.{
  ℕ, Bool, true, false, List, [], ◌∷◌, Option, none, some, Bytes, Signed, codes, is_empty, ◌==◌,
  if◌then◌else◌,
}
use n.Job.Backend.{Error, message, wrap, Result, ok, err}
use n.Worker.Value.{Fields}
use n.Meta.Types.{
  Workspace, TableInfo, SchemaSnapshot, Connection, PluginDefinition, User, Agent, Repository,
}

-- An argument of a statement or a column of a row.
pub data Cell : Type 0 where
  uuid str json : Bytes → Cell
  int : Signed → Cell
  bool : Bool → Cell
  time : ℕ → Cell
  null : Cell

-- What `QueryRow` finds: a row, none, a violation of a unique key (23505), or another error.
pub data Scanned : Type 0 where
  row : List Cell → Scanned
  no_rows : Scanned
  duplicate failed : Error → Scanned

-- What `Query` gives: an error, or the rows with the error that has ended them, if any.
pub data Found : Type 0 where
  not_queried : Error → Found
  rows : List (List Cell) → Option Error → Found

-- `scan_error` is that of `Scan` for a row of other columns, `no_rows_error` is `pgx.ErrNoRows`;
-- `exec` answers the number of rows that it has changed. A SELECT changes nothing.
pub record Database : Type 1 where
  pub State : Type 0
  pub select_row : Bytes → List Cell → State → Scanned
  pub select_rows : Bytes → List Cell → State → Found
  pub insert_row : Bytes → List Cell → State → Scanned × State
  pub exec : Bytes → List Cell → State → Result ℕ × State
  pub scan_error : Error
  pub no_rows_error : Error
  pub parse_uuid : Bytes → Result Bytes
  pub marshal_params : Fields → Result Bytes
  pub unmarshal_params : Bytes → Result Fields
  pub marshal_tables : List TableInfo → Result Bytes
  pub unmarshal_tables : Bytes → Result (List TableInfo)

unfoldable pub insert_connection : Bytes
insert_connection =
    codes
      "INSERT INTO connections (workspace_id, user_id, tenant_id, name, adapter_type, config) VALUES ($1, $2, $3, $4, $5, $6) RETURNING id"

unfoldable pub select_connection : Bytes
select_connection =
    codes
      "SELECT id, workspace_id, tenant_id, name, adapter_type, config, created_at FROM connections WHERE id = $1 AND tenant_id = $2"

unfoldable pub select_connections : Bytes
select_connections =
    codes
      "SELECT id, workspace_id, tenant_id, name, adapter_type, config, created_at FROM connections WHERE user_id = $1 AND ($2::uuid IS NULL OR workspace_id = $2::uuid) ORDER BY created_at DESC LIMIT $3 OFFSET $4"

unfoldable pub delete_one_connection : Bytes
delete_one_connection = codes "DELETE FROM connections WHERE id = $1 AND tenant_id = $2"

unfoldable pub select_workspaces : Bytes
select_workspaces =
    codes
      "SELECT id, tenant_id, name, created_at FROM workspaces WHERE user_id = $1 ORDER BY created_at DESC LIMIT $2 OFFSET $3"

unfoldable pub insert_workspace : Bytes
insert_workspace =
    codes "INSERT INTO workspaces (tenant_id, user_id, name) VALUES ($1, $2, $3) RETURNING id"

unfoldable pub select_snapshot : Bytes
select_snapshot =
    codes
      "SELECT s.tables, s.captured_at FROM schema_snapshots s JOIN connections c ON c.id = s.connection_id WHERE s.connection_id = $1 AND c.tenant_id = $2 ORDER BY s.captured_at DESC LIMIT 1"

unfoldable pub insert_snapshot : Bytes
insert_snapshot = codes "INSERT INTO schema_snapshots (connection_id, tables) VALUES ($1, $2)"

unfoldable pub insert_plugin : Bytes
insert_plugin =
    codes
      "INSERT INTO plugin_definitions (plugin_type, name, version, author, endpoint, protocol, status, tenant_id, is_global) VALUES ($1, $2, $3, $4, $5, $6, $7, NULLIF($8, ''), $9) RETURNING id"

unfoldable pub insert_tenant_plugin : Bytes
insert_tenant_plugin =
    codes "INSERT INTO tenant_plugins (tenant_id, plugin_id) VALUES ($1, $2) ON CONFLICT DO NOTHING"

unfoldable pub insert_user : Bytes
insert_user =
    codes
      "INSERT INTO users (email, password_hash, password_salt, role) VALUES ($1, $2, $3, $4) RETURNING id"

unfoldable pub select_user_by_email : Bytes
select_user_by_email =
    codes
      "SELECT id, email, password_hash, password_salt, role, created_at FROM users WHERE email = $1"

unfoldable pub select_user_by_id : Bytes
select_user_by_id =
    codes
      "SELECT id, email, password_hash, password_salt, role, created_at FROM users WHERE id = $1"

unfoldable pub insert_agent : Bytes
insert_agent = codes "INSERT INTO agents (user_id, name) VALUES ($1, $2) RETURNING id"

unfoldable pub select_agents : Bytes
select_agents =
    codes
      "SELECT id, user_id, name, token_jti, status, created_at FROM agents WHERE user_id = $1 ORDER BY created_at DESC"

unfoldable pub select_agent : Bytes
select_agent =
    codes "SELECT id, user_id, name, token_jti, status, created_at FROM agents WHERE id = $1"

unfoldable pub update_agent : Bytes
update_agent = codes "UPDATE agents SET token_jti = $1 WHERE id = $2"

module _ (db : Database) where
  -- An INSERT that gives an ID: `exists` is the message for a violated key.
  abbrev pub inserted : {S : Type 0} → Bytes → Bytes → Scanned × S → Result Bytes × S
  inserted exists prefix (row (uuid id ∷ []), s) = (ok id, s)
  inserted exists prefix (row cells, s) = (err (wrap prefix db.scan_error), s)
  inserted exists prefix (no_rows, s) = (err (wrap prefix db.no_rows_error), s)
  inserted exists prefix (duplicate e, s) = (err (message exists), s)
  inserted exists prefix (failed e, s) = (err (wrap prefix e), s)

  -- One row of a SELECT, read by `read`; no row is nil.
  abbrev pub selected : {A : Type 0} → Bytes → (List Cell → Result A) → Scanned → Result (Option A)
  selected prefix read no_rows = ok none
  selected prefix read (failed e) = err (wrap prefix e)
  selected prefix read (duplicate e) = err (wrap prefix e)
  selected prefix read (row cells) = elim (read cells) [ ok x ↦ ok (some x) | err e ↦ err e ]

  abbrev next_row : {A : Type 0} → Result A → Result (List A) → Result (List A)
  next_row (err e) rest = err e
  next_row (ok x) (err e) = err e
  next_row (ok x) (ok rest) = ok (x ∷ rest)

  -- The loop over `rows.Next()`.
  unfoldable pub read_rows :
      {A : Type 0} → (List Cell → Result A) → List (List Cell) → Result (List A)
  read_rows read [] = ok []
  read_rows read (cells ∷ rest) = next_row (read cells) (read_rows read rest)

  -- Behind the loop: `rows.Err()`.
  abbrev iterated : {A : Type 0} → Bytes → Option Error → Result (List A) → Result (List A)
  iterated prefix ended (err e) = err e
  iterated prefix none (ok xs) = ok xs
  iterated prefix (some e) (ok xs) = err (wrap prefix e)

  abbrev pub listed :
      {A : Type 0} → Bytes → Bytes → (List Cell → Result A) → Found → Result (List A)
  unfolding read_rows
  listed query_prefix end_prefix read (not_queried e) = err (wrap query_prefix e)
  listed query_prefix end_prefix read (rows found ended) =
      iterated end_prefix ended (read_rows read found)

  -- A statement without a result.
  abbrev pub executed : {S : Type 0} → Bytes → Result ℕ × S → Option Error × S
  executed prefix (err e, s) = (some (wrap prefix e), s)
  executed prefix (ok k, s) = (none, s)
