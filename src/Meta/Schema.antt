-- ===== src/Meta/Schema.antt =====
-- internal/app/app.go: `GetSchema`, over the states of the repository and of the Connection Manager.
pub mod Cache
use n.Base.{ℕ, ◌≡◌, refl, List, Option, none, some, Bytes, codes, ◌++◌, map, arith}
use n.Job.Backend.{Error, message, wrap, Result, ok, err}
use n.Worker.Value.{Fields}
use n.Shared.Crypto.{decrypt_json}
use n.Meta.Types.{ColumnInfo, TableInfo, SchemaSnapshot, Connection, SchemaRequest, MetaService}

abbrev pub column_of : ColumnInfo → ColumnInfo
column_of c = record { name = c.name; data_type = c.data_type; nullable = c.nullable }

-- The loop over the tables of an answer, and of a snapshot in the server.
unfoldable pub table_of : TableInfo → TableInfo
table_of t = record { name = t.name; columns = map column_of t.columns }

module _ (svc : MetaService) where
  abbrev pub World : Type 0
  World = svc.repo.State × svc.cm_cli.State

  abbrev Answer : Type 0
  Answer = Result SchemaSnapshot × World

  -- Behind `SaveSchemaSnapshot`.
  abbrev pub saved :
      ℕ → Bytes → List TableInfo → svc.cm_cli.State → Option Error × svc.repo.State → Answer
  saved now connection_id tables m (some e, s) =
      (err (wrap (codes "save schema snapshot") e), (s, m))
  saved now connection_id tables m (none, s) =
      (ok (record { connection_id = connection_id; tables = tables; captured_at = now }), (s, m))

  -- Behind the call of the Connection Manager.
  abbrev pub fetched :
      ℕ → Bytes → svc.repo.State → Result (List TableInfo) × svc.cm_cli.State → Answer
  fetched now connection_id s (err e, m) = (err (wrap (codes "fetch schema from cm") e), (s, m))
  fetched now connection_id s (ok tables, m) =
      saved now connection_id (map table_of tables) m
        (svc.repo.save_schema_snapshot connection_id (map table_of tables) s)

  abbrev request_of : Bytes → Connection → Fields → SchemaRequest
  request_of connection_id conn params = record {
    connection_id = connection_id;
    adapter_type = conn.adapter_type;
    params = params;
  }

  abbrev marshalled : ℕ → Bytes → Connection → Result Fields → World → Answer
  marshalled now connection_id conn (err e) w = (err (wrap (codes "marshal params") e), w)
  marshalled now connection_id conn (ok params) (s, m) =
      fetched now connection_id s (svc.cm_cli.get_schema (request_of connection_id conn params) m)

  abbrev decrypted : ℕ → Bytes → Connection → Result Fields → World → Answer
  decrypted now connection_id conn (err e) w = (err (wrap (codes "decrypt params") e), w)
  decrypted now connection_id conn (ok params) w =
      marshalled now connection_id conn (svc.libraries.new_struct params) w

  abbrev pub with_connection : ℕ → Bytes → Result (Option Connection) → World → Answer
  with_connection now connection_id (err e) w = (err (wrap (codes "get connection") e), w)
  with_connection now connection_id (ok none) w =
      (err (message (codes "connection not found: " ++ connection_id)), w)
  with_connection now connection_id (ok (some conn)) w =
      decrypted now connection_id conn (decrypt_json svc.libraries.cipher svc.crypto conn.params) w

  abbrev pub with_snapshot : ℕ → Bytes → Bytes → Result (Option SchemaSnapshot) → World → Answer
  with_snapshot now connection_id tenant_id (err e) w =
      (err (wrap (codes "get schema snapshot") e), w)
  with_snapshot now connection_id tenant_id (ok (some snap)) w = (ok snap, w)
  with_snapshot now connection_id tenant_id (ok none) (s, m) =
      with_connection now connection_id (svc.repo.get_connection connection_id tenant_id s) (s, m)

  -- `GetSchema`.
  unfoldable pub get_schema : ℕ → Bytes → Bytes → World → Answer
  unfolding table_of
  get_schema now connection_id tenant_id (s, m) =
      with_snapshot now connection_id tenant_id
        (svc.repo.get_schema_snapshot connection_id tenant_id s) (s, m)
