-- ===== src/Meta/Postgres/SnapshotTests.antt =====
-- `GetSchema` over a small database of one connection and its snapshots.
use n.Base.{
  ℕ, suc, ◌≡◌, refl, sym, ap, ◌∙◌, List, [], ◌∷◌, none, Bytes, codes, eq, eq_refl, if◌then◌else◌,
}
use n.Job.Backend.{job_not_found, Result, ok, err}
use n.Worker.Value.{end}
use n.Shared.Crypto.{decrypt_json}
use n.Meta.Types.{ColumnInfo, TableInfo, SchemaSnapshot, CmClient}
use n.Meta.Schema.{get_schema, table_of}
use n.Meta.Schema.Cache.{Answered}
use n.Meta.Tests.{libraries}
use n.Meta.Postgres.{
  Cell, uuid, str, json, time, Scanned, row, no_rows, failed, not_queried, Database,
  select_connection, select_snapshot,
}
use n.Meta.Postgres.Connections.{get_connection, get_schema_snapshot, save_schema_snapshot}
use n.Meta.Postgres.Refinement.{service}
use n.Meta.Postgres.Snapshots.{HasSnapshot, get_schema-Answered}

-- The connection and the tables of each snapshot, the latest first.
abbrev State : Type 0
State = List (Bytes × Bytes)

abbrev latest : Bytes → State → Scanned
latest id [] = no_rows
latest id ((i, tables) ∷ rest) =
    let later = latest id rest in if eq i id then row (json tables ∷ time 1 ∷ []) else later

abbrev connection_cells : List Cell
connection_cells =
    uuid (codes "c1")
    ∷ uuid (codes "w")
    ∷ str (codes "t")
    ∷ str (codes "main")
    ∷ str (codes "postgres")
    ∷ json (codes "{}")
    ∷ time 1
    ∷ []

abbrev select_by : Bytes → Bytes → Bytes → State → Scanned
select_by q id tenant s =
    if eq tenant (codes "t")
    then if eq q select_snapshot
      then latest id s
      else if eq id (codes "c1")
      then row connection_cells
      else no_rows
    else no_rows

abbrev select : Bytes → List Cell → State → Scanned
select q (str id ∷ str tenant ∷ []) s = select_by q id tenant s
select q cells s = no_rows

abbrev insert : List Cell → State → Result ℕ × State
insert (str id ∷ json tables ∷ []) s = (ok 1, (id, tables) ∷ s)
insert cells s = (err job_not_found, s)

-- The text of one table without columns is its name.
abbrev with_columns : Bytes → List ColumnInfo → Result Bytes
with_columns name [] = ok name
with_columns name (c ∷ cs) = err job_not_found

abbrev marshal : List TableInfo → Result Bytes
marshal [] = err job_not_found
marshal (t ∷ []) = with_columns t.name t.columns
marshal (t ∷ u ∷ ts) = err job_not_found

abbrev named : Bytes → List TableInfo
named name = record { name = name; columns = [] } ∷ []

abbrev database : Database
database = record {
  State = State;
  select_row = select;
  select_rows = λ q cells s. not_queried job_not_found;
  insert_row = λ q cells s. (failed job_not_found, s);
  exec = λ q cells s. insert cells s;
  scan_error = job_not_found;
  no_rows_error = job_not_found;
  parse_uuid = λ x. ok x;
  marshal_params = λ m. ok (codes "{}");
  unmarshal_params = λ p. ok end;
  marshal_tables = marshal;
  unmarshal_tables = λ p. ok (named p);
}

with_columns-ok :
    (t : TableInfo) (columns : List ColumnInfo) (p : Bytes)
    → t.columns ≡ columns
    → with_columns t.name columns ≡ ok p
    → named p ≡ t ∷ []
with_columns-ok t [] p e h =
    let n : t.name ≡ p = cc h in
    ap named (sym n)
    ∙ ap (λ (c : List ColumnInfo). record { name = t.name; columns = c } ∷ []) (sym e)
with_columns-ok t (c ∷ cs) p e h = cc h

reads_tables : (ts : List TableInfo) (p : Bytes) → marshal ts ≡ ok p → ok (named p) ≡ ok ts
reads_tables [] p h = cc h
reads_tables (t ∷ []) p h = ap ok (with_columns-ok t t.columns p refl h)
reads_tables (t ∷ u ∷ ts) p h = cc h

has_snapshot :
    (cells : List Cell) (tables : Bytes) (k : ℕ) (old new : State)
    → select select_connection (str (codes "c1") ∷ str (codes "t") ∷ []) old ≡ row cells
    → insert (str (codes "c1") ∷ json tables ∷ []) old ≡ (ok k, new)
    → HasSnapshot database (codes "c1") (codes "t") tables new
unfolding eq
has_snapshot cells tables k old new f h =
    let e = ap (λ x. x.1) h in
    record {
      stored_tables = tables;
      captured_at = 1;
      reads_alike = refl;
      found =
          ap (λ s. select select_snapshot (str (codes "c1") ∷ str (codes "t") ∷ []) s) (sym e)
          ∙ rw (eq_refl select_snapshot) refl;
    }

-- A Connection Manager that knows one table and counts its calls.
abbrev manager : CmClient
manager = record { State = ℕ; get_schema = λ r k. (ok (named (codes "orders")), suc k) }

abbrev snapshot : SchemaSnapshot
snapshot = record { connection_id = codes "c1"; tables = named (codes "orders"); captured_at = 7 }

schema_fetched :
    get_schema (service database manager none libraries) 7 (codes "c1") (codes "t") ([], 0)
    ≡ (ok snapshot, ((codes "c1", codes "orders") ∷ [], 1))
unfolding get_schema get_connection get_schema_snapshot save_schema_snapshot select_snapshot
    select_connection eq table_of decrypt_json
schema_fetched = refl

get_schema-Answered_example :
    Answered
      (service database manager none libraries)
      9
      (codes "c1")
      (codes "t")
      (named (codes "orders"))
      ((codes "c1", codes "orders") ∷ [])
      1
get_schema-Answered_example =
    get_schema-Answered database manager none libraries 7 9 (codes "c1") (codes "t") snapshot []
      ((codes "c1", codes "orders") ∷ []) 0 1 1 has_snapshot reads_tables schema_fetched
