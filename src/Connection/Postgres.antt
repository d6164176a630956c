-- ===== src/Connection/Postgres.antt =====
-- internal/adapter/postgres.go: `PostgresAdapter`. The driver pgx is the parameter `Driver`; its
-- answers are those at the time of the call.
pub mod Schema
mod Tests
use n.Base.{
  ℕ, Bool, true, false, List, [], ◌∷◌, ◌++◌, map, Option, none, some, Bytes, Signed, codes, eq,
  Dict, lookup, insert, delete, is_positive, if◌then◌else◌,
}
use n.Job.Backend.{Error, message, wrap, Result, ok, err}

pub record ColumnInfo : Type 0 where
  pub name : Bytes
  pub data_type : Bytes
  pub nullable : Bool

pub record TableInfo : Type 0 where
  pub name : Bytes
  pub columns : List ColumnInfo

-- The rows of a query: each is read or is an error, and `ended` is `rows.Err()`.
pub record Rows (A : Type 0) : Type 0 where
  pub names : List Bytes
  pub values : List (Result A)
  pub ended : Option Error

-- A row of `information_schema.columns`.
pub record SchemaRow : Type 0 where
  pub table_name : Bytes
  pub column_name : Bytes
  pub data_type : Bytes
  pub is_nullable : Bytes

-- `new_test_pool` is a pool of one connection with a timeout of 5 seconds; `Values` has a value
-- for each column.
pub record Driver : Type 1 where
  pub Config : Type 0
  pub Pool : Type 0
  pub Connection : Type 0
  pub Cell : Type 0
  pub parse_config : Bytes → Result Config
  pub new_test_pool : Config → Result Pool
  pub ping : Pool → Option Error
  pub new_pool : Bytes → Result Pool
  pub query : Pool → Bytes → Result (Rows (List Cell))
  pub connect : Bytes → Result Connection
  pub query_schema : Connection → Result (Rows SchemaRow)
  pub number_text : Signed → Bytes

-- `rowMap[name] = values[i]`
abbrev pub row_map : {C : Type 0} → List Bytes → List C → Dict C → Dict C
row_map [] values found = found
row_map (name ∷ names) [] found = found
row_map (name ∷ names) (v ∷ values) found = row_map names values (insert name v found)

abbrev pub next_row : {A : Type 0} → A → Result (List A) → Result (List A)
next_row x (ok xs) = ok (x ∷ xs)
next_row x (err e) = err e

-- The loop over `rows.Next()`, for what it makes of a row.
unfoldable pub read_rows : {A B : Type 0} → Bytes → (A → B) → List (Result A) → Result (List B)
read_rows prefix make [] = ok []
read_rows prefix make (err e ∷ rest) = err (wrap prefix e)
read_rows prefix make (ok x ∷ rest) = next_row (make x) (read_rows prefix make rest)

abbrev pub iterated : {A : Type 0} → Option Error → Result (List A) → Result (List A)
iterated ended (err e) = err e
iterated none (ok xs) = ok xs
iterated (some e) (ok xs) = err (wrap (codes "row iteration") e)

abbrev pub column_of : SchemaRow → ColumnInfo
column_of r = record {
  name = r.column_name;
  data_type = r.data_type;
  nullable = eq r.is_nullable (codes "YES");
}

-- `t.Columns = append(t.Columns, …)`, for a table that is new or not.
abbrev pub with_column : ColumnInfo → Option (List ColumnInfo) → List ColumnInfo
with_column c none = c ∷ []
with_column c (some columns) = columns ++ (c ∷ [])

-- The map `tables`, by the name of a table.
unfoldable pub group : List SchemaRow → Dict (List ColumnInfo) → Dict (List ColumnInfo)
group [] tables = tables
group (r ∷ rest) tables =
    group rest (insert r.table_name (with_column (column_of r) (lookup r.table_name tables)) tables)

-- The result ranges over the map; its order is not told by Go.
abbrev pub tables_of : Dict (List ColumnInfo) → List TableInfo
tables_of tables = map (λ entry. record { name = entry.0; columns = entry.1 }) tables

module _ (driver : Driver) where
  abbrev pub Pools : Type 0
  Pools = Dict driver.Pool

  abbrev pinged : Option Error → Option Error
  pinged none = none
  pinged (some e) = some (wrap (codes "ping") e)

  abbrev pooled : Result driver.Pool → Option Error
  pooled (err e) = some (wrap (codes "create pool") e)
  pooled (ok pool) = pinged (driver.ping pool)

  abbrev configured : Result driver.Config → Option Error
  configured (err e) = some (wrap (codes "parse config") e)
  configured (ok config) = pooled (driver.new_test_pool config)

  -- `TestConnection`.
  unfoldable pub test_connection : Bytes → Option Error
  test_connection dsn = configured (driver.parse_config dsn)

  abbrev pub with_pool : Bytes → Pools → Result driver.Pool → Option Error × Pools
  with_pool id pools (err e) = (some (wrap (codes "create pool") e), pools)
  with_pool id pools (ok pool) = (none, insert id pool pools)

  abbrev pub prepared : Bytes → Bytes → Pools → Option driver.Pool → Option Error × Pools
  prepared id dsn pools (some pool) = (none, pools)
  prepared id dsn pools none = with_pool id pools (driver.new_pool dsn)

  -- `Prepare`.
  unfoldable pub prepare : Bytes → Bytes → Pools → Option Error × Pools
  prepare id dsn pools = prepared id dsn pools (lookup id pools)

  -- `Release`, with the pool that it closes.
  unfoldable pub release : Bytes → Pools → Option driver.Pool × Pools
  release id pools = elim (lookup id pools) [
    | none ↦ (none, pools)
    | some pool ↦ (some pool, delete id pools)
  ]

  abbrev pub executed : Result (Rows (List driver.Cell)) → Result (List (Dict driver.Cell))
  executed (err e) = err (wrap (codes "query execution") e)
  executed (ok rows) =
      iterated rows.ended
        (read_rows (codes "read values") (λ values. row_map rows.names values []) rows.values)

  abbrev pub limited : Bytes → Signed → Bytes
  limited sql limit =
      if is_positive limit then sql ++ (codes " LIMIT " ++ driver.number_text limit) else sql

  abbrev pub executed_in :
      Bytes → Bytes → Signed → Option driver.Pool → Result (List (Dict driver.Cell))
  executed_in id sql limit none = err (message (codes "pool not found for connection " ++ id))
  executed_in id sql limit (some pool) = executed (driver.query pool (limited sql limit))

  -- `ExecuteQuery`.
  unfoldable pub execute_query : Bytes → Bytes → Signed → Pools → Result (List (Dict driver.Cell))
  execute_query id sql limit pools = executed_in id sql limit (lookup id pools)

  abbrev pub grouped : Result (List SchemaRow) → Result (List TableInfo)
  grouped (err e) = err e
  grouped (ok found) = ok (tables_of (group found []))

  abbrev pub schema_rows : Result (Rows SchemaRow) → Result (List TableInfo)
  schema_rows (err e) = err (wrap (codes "schema query") e)
  schema_rows (ok rows) =
      grouped (iterated rows.ended (read_rows (codes "scan") (λ r. r) rows.values))

  abbrev connected : Result driver.Connection → Result (List TableInfo)
  connected (err e) = err (wrap (codes "connect") e)
  connected (ok connection) = schema_rows (driver.query_schema connection)

  -- `GetSchema`.
  unfoldable pub get_schema : Bytes → Result (List TableInfo)
  get_schema dsn = connected (driver.connect dsn)
