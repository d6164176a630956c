-- ===== src/Meta/Schema/Cache.antt =====
-- internal/app/app.go: the snapshots that `GetSchema` answers from.
use n.Base.{ℕ, ◌≡◌, refl, List, map, Option, none, some, Bytes}
use n.Job.Backend.{Error, Result, ok, err}
use n.Worker.Value.{Fields}
use n.Meta.Types.{TableInfo, SchemaSnapshot, Connection, MetaService}
use n.Meta.Schema.{
  saved, fetched, marshalled, decrypted, with_connection, with_snapshot, get_schema, table_of,
}

module _ (svc : MetaService) where
  -- The latest snapshot of a connection of the tenant has those tables.
  pub record Cached (connection_id tenant_id : Bytes) (tables : List TableInfo) (s : svc.repo.State)
      : Type 0 where
    pub snapshot : SchemaSnapshot
    pub found : svc.repo.get_schema_snapshot connection_id tenant_id s ≡ ok (some snapshot)
    pub tables_are : snapshot.tables ≡ tables

  -- An answer from the repository, which stays as it is, as does the Connection Manager.
  pub record Answered (now : ℕ) (connection_id tenant_id : Bytes) (tables : List TableInfo)
      (s : svc.repo.State) (m : svc.cm_cli.State) : Type 0 where
    pub snapshot : SchemaSnapshot
    pub answer_is : get_schema svc now connection_id tenant_id (s, m) ≡ (ok snapshot, (s, m))
    pub tables_are : snapshot.tables ≡ tables

  module _ (now : ℕ) (c t : Bytes) (snap : SchemaSnapshot) (s : svc.repo.State)
      (m m' : svc.cm_cli.State) (s' : svc.repo.State)
      (keeps : (ts : List TableInfo)
        → svc.repo.save_schema_snapshot c ts s ≡ (none, s')
        → Cached c t ts s') where
    saved-Cached :
        (ts : List TableInfo) (k : svc.cm_cli.State) (found : Option Error × svc.repo.State)
        → svc.repo.save_schema_snapshot c ts s ≡ found
        → saved svc now c ts k found ≡ (ok snap, (s', m'))
        → Cached c t snap.tables s'
    saved-Cached ts k (some e, u) f h = cc h
    saved-Cached ts k (none, u) f h =
        let q = keeps ts (cc (f, h)) in
        record {
          snapshot = q.snapshot;
          found = q.found;
          tables_are = let e = q.tables_are in cc (e, h);
        }

    fetched-Cached :
        (found : Result (List TableInfo) × svc.cm_cli.State)
        → fetched svc now c s found ≡ (ok snap, (s', m'))
        → Cached c t snap.tables s'
    fetched-Cached (err e, k) h = cc h
    fetched-Cached (ok ts, k) h = saved-Cached (map table_of ts) k _ refl h

    marshalled-Cached :
        (conn : Connection) (found : Result Fields)
        → marshalled svc now c conn found (s, m) ≡ (ok snap, (s', m'))
        → Cached c t snap.tables s'
    marshalled-Cached conn (err e) h = cc h
    marshalled-Cached conn (ok params) h = fetched-Cached _ h

    decrypted-Cached :
        (conn : Connection) (found : Result Fields)
        → decrypted svc now c conn found (s, m) ≡ (ok snap, (s', m'))
        → Cached c t snap.tables s'
    decrypted-Cached conn (err e) h = cc h
    decrypted-Cached conn (ok params) h = marshalled-Cached conn _ h

  module _ (now : ℕ) (c t : Bytes) (snap : SchemaSnapshot) (s : svc.repo.State)
      (m m' : svc.cm_cli.State) (s' : svc.repo.State)
      (keeps : (conn : Connection) (ts : List TableInfo)
        → svc.repo.get_connection c t s ≡ ok (some conn)
        → svc.repo.save_schema_snapshot c ts s ≡ (none, s')
        → Cached c t ts s') where
    with_connection-Cached :
        (found : Result (Option Connection))
        → svc.repo.get_connection c t s ≡ found
        → with_connection svc now c found (s, m) ≡ (ok snap, (s', m'))
        → Cached c t snap.tables s'
    with_connection-Cached (err e) f h = cc h
    with_connection-Cached (ok none) f h = cc h
    with_connection-Cached (ok (some conn)) f h =
        decrypted-Cached now c t snap s m m' s' (λ ts k. keeps conn ts f k) conn _ h

    with_snapshot-Cached :
        (found : Result (Option SchemaSnapshot))
        → svc.repo.get_schema_snapshot c t s ≡ found
        → with_snapshot svc now c t found (s, m) ≡ (ok snap, (s', m'))
        → Cached c t snap.tables s'
    with_snapshot-Cached (err e) f h = cc h
    with_snapshot-Cached (ok none) f h = with_connection-Cached _ refl h
    with_snapshot-Cached (ok (some x)) f h = record {
      snapshot = x;
      found = cc (f, h);
      tables_are = cc h;
    }

  -- If a snapshot that is saved for a connection of a tenant is then the latest one found for them,
  -- then a schema that has been answered is answered again, with the same tables, from the
  -- repository alone: nothing is asked of the Connection Manager and nothing is saved.
  pub get_schema-get_schema :
      (now later : ℕ) (c t : Bytes) (snap : SchemaSnapshot) (s s' : svc.repo.State)
      (m m' n : svc.cm_cli.State)
      → ((conn : Connection) (ts : List TableInfo) (old new : svc.repo.State)
          → svc.repo.get_connection c t old ≡ ok (some conn)
          → svc.repo.save_schema_snapshot c ts old ≡ (none, new)
          → Cached c t ts new)
      → get_schema svc now c t (s, m) ≡ (ok snap, (s', m'))
      → Answered later c t snap.tables s' n
  unfolding get_schema
  get_schema-get_schema now later c t snap s s' m m' n keeps h =
      let q =
        with_snapshot-Cached now c t snap s m m' s' (λ conn ts f k. keeps conn ts s s' f k) _ refl
          h in
      record { snapshot = q.snapshot; answer_is = rw q.found refl; tables_are = q.tables_are }
