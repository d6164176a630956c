-- ===== src/Meta/Postgres/Snapshots.antt =====
-- postgres.go under `GetSchema` of internal/app/app.go: the cache of schemas in the database.
use n.Base.{ℕ, ◌≡◌, refl, ◌∙◌, List, [], ◌∷◌, Option, none, some, Bytes}
use n.Job.Backend.{Result, ok, err}
use n.Shared.Crypto.{Encrypter}
use n.Meta.Types.{TableInfo, SchemaSnapshot, Connection, CmClient, Libraries}
use n.Meta.Schema.{get_schema}
use n.Meta.Schema.Cache.{Cached, Answered, get_schema-get_schema}
use n.Meta.Postgres.{
  Cell, str, json, time, Scanned, row, no_rows, duplicate, failed, Database, selected, executed,
  select_connection, select_snapshot, insert_snapshot,
}
use n.Meta.Postgres.Connections
use n.Meta.Postgres.Connections.{saved_snapshot}
use n.Meta.Postgres.Refinement.{service}

module _ (db : Database) where
  -- The row that is the latest snapshot of a connection of the tenant, whose tables are read as
  -- `tables` are: a JSONB column does not keep the text.
  pub record HasSnapshot (id tenant tables : Bytes) (s : db.State) : Type 0 where
    pub stored_tables : Bytes
    pub captured_at : ℕ
    pub reads_alike : db.unmarshal_tables stored_tables ≡ db.unmarshal_tables tables
    pub found :
        db.select_row select_snapshot (str id ∷ str tenant ∷ []) s
        ≡ row (json stored_tables ∷ time captured_at ∷ [])

  selected-some :
      {A : Type 0} (prefix : Bytes) (read : List Cell → Result A) (found : Scanned) (x : A)
      → selected db prefix read found ≡ ok (some x)
      → (cells : List Cell) × (found ≡ row cells)
  selected-some prefix read (row cells) x h = (cells, refl)
  selected-some prefix read no_rows x h = cc h
  selected-some prefix read (duplicate e) x h = cc h
  selected-some prefix read (failed e) x h = cc h

  executed-none :
      (prefix : Bytes) (out : Result ℕ × db.State) (s : db.State)
      → executed db prefix out ≡ (none, s)
      → (k : ℕ) × (out ≡ (ok k, s))
  executed-none prefix (ok k, t) s h = (k, cc h)
  executed-none prefix (err e, t) s h = cc h

  saved_snapshot-none :
      (id : Bytes) (old new : db.State) (found : Result Bytes)
      → saved_snapshot db id old found ≡ (none, new)
      → (p : Bytes) × (k : ℕ) × (found ≡ ok p)
        × (db.exec insert_snapshot (str id ∷ json p ∷ []) old ≡ (ok k, new))
  unfolding insert_snapshot
  saved_snapshot-none id old new (err e) h = cc h
  saved_snapshot-none id old new (ok p) h =
      let (k, e) = executed-none _ (db.exec insert_snapshot (str id ∷ json p ∷ []) old) new h in
      (p, k, refl, e)

  connection_row :
      (id tenant : Bytes) (s : db.State) (c : Connection)
      → Connections.get_connection db id tenant s ≡ ok (some c)
      → (cells : List Cell) × (db.select_row select_connection (str id ∷ str tenant ∷ []) s
          ≡ row cells)
  unfolding Connections.get_connection
  connection_row id tenant s c h = selected-some _ _ _ c h

  save_schema_snapshot-none :
      (id : Bytes) (tables : List TableInfo) (old new : db.State)
      → Connections.save_schema_snapshot db id tables old ≡ (none, new)
      → (p : Bytes) × (k : ℕ) × (db.marshal_tables tables ≡ ok p)
        × (db.exec insert_snapshot (str id ∷ json p ∷ []) old ≡ (ok k, new))
  unfolding Connections.save_schema_snapshot
  save_schema_snapshot-none id tables old new h =
      saved_snapshot-none id old new (db.marshal_tables tables) h

module _ (db : Database) (cm : CmClient) (crypto : Option Encrypter) (libraries : Libraries) where
  HasSnapshot-Cached :
      (id tenant p : Bytes) (tables : List TableInfo) (s : db.State)
      → HasSnapshot db id tenant p s
      → db.unmarshal_tables p ≡ ok tables
      → Cached (service db cm crypto libraries) id tenant tables s
  unfolding Connections.get_schema_snapshot
  HasSnapshot-Cached id tenant p tables s f u = record {
    snapshot = record { connection_id = id; tables = tables; captured_at = f.captured_at };
    found = rw f.found (rw (f.reads_alike ∙ u, selected) refl);
    tables_are = refl;
  }

  -- If, for a connection that a SELECT finds for the tenant, the row that an INSERT has added to the
  -- snapshots is the one that the SELECT of the latest finds, with tables that are read alike, and
  -- JSON reads back the tables that it has written, then over PostgreSQL a schema that has been
  -- answered is answered again, with the same tables, from the database alone: nothing is asked of
  -- the Connection Manager and nothing is saved.
  pub get_schema-Answered :
      (now later : ℕ) (id tenant : Bytes) (snap : SchemaSnapshot) (s s' : db.State)
      (m m' n : cm.State)
      → ((cells : List Cell) (tables : Bytes) (k : ℕ) (old new : db.State)
          → db.select_row select_connection (str id ∷ str tenant ∷ []) old ≡ row cells
          → db.exec insert_snapshot (str id ∷ json tables ∷ []) old ≡ (ok k, new)
          → HasSnapshot db id tenant tables new)
      → ((ts : List TableInfo) (p : Bytes)
          → db.marshal_tables ts ≡ ok p
          → db.unmarshal_tables p ≡ ok ts)
      → get_schema (service db cm crypto libraries) now id tenant (s, m) ≡ (ok snap, (s', m'))
      → Answered (service db cm crypto libraries) later id tenant snap.tables s' n
  get_schema-Answered now later id tenant snap s s' m m' n sql reads h =
      get_schema-get_schema (service db cm crypto libraries) now later id tenant snap s s' m m' n
        (λ conn ts old new f k.
          let (cells, found) = connection_row db id tenant old conn f in
          let (p, i, written, e) = save_schema_snapshot-none db id ts old new k in
          HasSnapshot-Cached id tenant p ts new (sql cells p i old new found e)
            (reads ts p written))
        h
