-- ===== src/Meta/Postgres/Connections.antt =====
-- postgres.go: connections, workspaces and schema snapshots.
use n.Base.{
  ℕ, List, [], ◌∷◌, Option, none, some, Bytes, Signed, codes, is_empty, ◌==◌, if◌then◌else◌,
}
use n.Job.Backend.{Error, message, wrap, Result, ok, err}
use n.Worker.Value.{Fields}
use n.Meta.Types.{Workspace, TableInfo, SchemaSnapshot, Connection}
use n.Meta.Postgres.{
  Cell, uuid, str, json, int, time, null, Database, inserted, selected, listed, executed,
  insert_connection, select_connection, select_connections, delete_one_connection,
  select_workspaces, insert_workspace, select_snapshot, insert_snapshot,
}

module _ (db : Database) where
  abbrev pub read_workspace : List Cell → Result Workspace
  read_workspace (uuid id ∷ str tenant ∷ str name ∷ time t ∷ []) =
      ok (record { id = id; tenant_id = tenant; name = name; created_at = t })
  read_workspace cells = err (wrap (codes "scan workspace") db.scan_error)

  -- `ListWorkspaces`.
  unfoldable pub list_workspaces : Bytes → Signed → Signed → db.State → Result (List Workspace)
  unfolding select_workspaces
  list_workspaces user_id limit offset s =
      listed db (codes "query workspaces") (codes "iterate workspaces") read_workspace
        (db.select_rows select_workspaces (str user_id ∷ int limit ∷ int offset ∷ []) s)

  abbrev pub workspace_for : Bytes → Bytes → db.State → Result Bytes → Result Bytes × db.State
  unfolding insert_workspace
  workspace_for tenant_id name s (err e) = (err (wrap (codes "parse user_id") e), s)
  workspace_for tenant_id name s (ok user) =
      inserted db (codes "workspace already exists") (codes "insert workspace")
        (db.insert_row insert_workspace (str tenant_id ∷ uuid user ∷ str name ∷ []) s)

  -- `CreateWorkspace`.
  unfoldable pub create_workspace : Bytes → Bytes → Bytes → db.State → Result Bytes × db.State
  create_workspace user_id tenant_id name s = workspace_for tenant_id name s (db.parse_uuid user_id)

  abbrev pub snapshot_of : Bytes → ℕ → Result (List TableInfo) → Result SchemaSnapshot
  snapshot_of connection_id t (err e) = err (wrap (codes "unmarshal tables") e)
  snapshot_of connection_id t (ok tables) =
      ok (record { connection_id = connection_id; tables = tables; captured_at = t })

  abbrev pub read_snapshot : Bytes → List Cell → Result SchemaSnapshot
  read_snapshot connection_id (json tables ∷ time t ∷ []) =
      snapshot_of connection_id t (db.unmarshal_tables tables)
  read_snapshot connection_id cells = err (wrap (codes "query schema snapshot") db.scan_error)

  -- `GetSchemaSnapshot`.
  unfoldable pub get_schema_snapshot : Bytes → Bytes → db.State → Result (Option SchemaSnapshot)
  unfolding select_snapshot
  get_schema_snapshot connection_id tenant_id s =
      selected db (codes "query schema snapshot") (read_snapshot connection_id)
        (db.select_row select_snapshot (str connection_id ∷ str tenant_id ∷ []) s)

  abbrev pub saved_snapshot : Bytes → db.State → Result Bytes → Option Error × db.State
  saved_snapshot connection_id s (err e) = (some (wrap (codes "marshal tables") e), s)
  saved_snapshot connection_id s (ok tables) =
      executed db (codes "insert schema snapshot")
        (db.exec insert_snapshot (str connection_id ∷ json tables ∷ []) s)

  -- `SaveSchemaSnapshot`.
  unfoldable pub save_schema_snapshot : Bytes → List TableInfo → db.State → Option Error × db.State
  save_schema_snapshot connection_id tables s =
      saved_snapshot connection_id s (db.marshal_tables tables)

  abbrev pub inserted_for :
      Connection → Bytes → Bytes → db.State → Result Bytes → Result Bytes × db.State
  inserted_for c config ws s (err e) = (err (wrap (codes "parse user_id") e), s)
  inserted_for c config ws s (ok user) =
      inserted db (codes "connection already exists") (codes "insert connection") (
        db.insert_row insert_connection
          (uuid ws
            ∷ uuid user
            ∷ str c.tenant_id
            ∷ str c.name
            ∷ str c.adapter_type
            ∷ json config
            ∷ [])
          s)

  abbrev pub inserted_in : Connection → Bytes → db.State → Result Bytes → Result Bytes × db.State
  inserted_in c config s (err e) = (err (wrap (codes "parse workspace_id") e), s)
  inserted_in c config s (ok ws) = inserted_for c config ws s (db.parse_uuid c.user_id)

  abbrev pub inserted_with : Connection → db.State → Result Bytes → Result Bytes × db.State
  inserted_with c s (err e) = (err (wrap (codes "marshal config") e), s)
  inserted_with c s (ok config) = inserted_in c config s (db.parse_uuid c.workspace_id)

  -- `CreateConnection`.
  unfoldable pub create_connection : Connection → db.State → Result Bytes × db.State
  create_connection c s = inserted_with c s (db.marshal_params c.params)

  abbrev pub with_config : Connection → Result Fields → Result Connection
  with_config c (err e) = err (wrap (codes "unmarshal config") e)
  with_config c (ok params) = ok (record c { params = params })

  -- A row of a connection, whose user is not read; `prefix` names the failing call.
  abbrev pub read_connection : Bytes → List Cell → Result Connection
  read_connection prefix
        (uuid id ∷ uuid ws ∷ str tenant ∷ str name ∷ str adapter ∷ json config ∷ time t ∷ []) =
      with_config
        (record {
          id = id;
          workspace_id = ws;
          user_id = [];
          tenant_id = tenant;
          name = name;
          adapter_type = adapter;
          params = Fields.end;
          created_at = t;
        })
        (db.unmarshal_params config)
  read_connection prefix cells = err (wrap prefix db.scan_error)

  -- `GetConnection`.
  unfoldable pub get_connection : Bytes → Bytes → db.State → Result (Option Connection)
  get_connection connection_id tenant_id s =
      selected db (codes "query connection") (read_connection (codes "query connection"))
        (db.select_row select_connection (str connection_id ∷ str tenant_id ∷ []) s)

  abbrev pub listed_in : Bytes → Signed → Signed → db.State → Cell → Result (List Connection)
  unfolding select_connections
  listed_in user_id limit offset s ws =
      listed db (codes "query connections") (codes "iterate connections")
        (read_connection (codes "scan connection"))
        (db.select_rows select_connections (str user_id ∷ ws ∷ int limit ∷ int offset ∷ []) s)

  abbrev pub listed_for :
      Bytes → Signed → Signed → db.State → Result Bytes → Result (List Connection)
  listed_for user_id limit offset s (err e) = err (wrap (codes "parse workspace_id") e)
  listed_for user_id limit offset s (ok ws) = listed_in user_id limit offset s (uuid ws)

  -- `ListConnections`.
  unfoldable pub list_connections :
      Bytes → Bytes → Signed → Signed → db.State → Result (List Connection)
  list_connections user_id workspace_id limit offset s =
      if is_empty workspace_id
      then listed_in user_id limit offset s null
      else listed_for user_id limit offset s (db.parse_uuid workspace_id)

  abbrev pub deleted : Result ℕ × db.State → Option Error × db.State
  deleted (err e, s) = (some (wrap (codes "delete connection") e), s)
  deleted (ok k, s) =
      if k == 0 then (some (message (codes "connection not found")), s) else (none, s)

  -- `DeleteConnection`.
  unfoldable pub delete_connection : Bytes → Bytes → db.State → Option Error × db.State
  unfolding delete_one_connection
  delete_connection connection_id tenant_id s =
      deleted (db.exec delete_one_connection (str connection_id ∷ str tenant_id ∷ []) s)
