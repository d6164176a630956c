-- ===== src/Connection/Service.antt =====
-- internal/server/grpc.go: `connectionConfig`, `ExecuteQuery`, `GetSchema` and
-- `TestConnection`. What the
-- adapters do is the parameter `Drivers`: `State` is all that they keep, and a Go map as a row is
-- the list of its entries in the order in which ranging over it meets them.
pub mod Answers
use n.Base.{
  ℕ, ◌≡◌, ◌≢◌, refl, sym, ap, ◌∙◌, Bool, true, false, List, [], ◌∷◌, ◌++◌, map, Option, none, some,
  Bytes, codes, length, if◌then◌else◌, Dict, lookup, Bool-cases, inl, inr,
}
use n.Job.Backend.{Error, message, error_text, wrap, Result, ok, err}
use n.Worker.Value.{Fields}
use n.Connection.Dsn.{Url, build_dsn}
use n.Connection.Postgres.{ColumnInfo, TableInfo}
use n.Connection.Registry
use n.Connection.Registry.{Adapter, Network, get, is_external}

pub record Request : Type 0 where
  pub connection_id : Bytes
  pub sql : Bytes
  pub limit : ℕ
  pub adapter_type : Bytes
  pub params : Fields

pub record Response : Type 0 where
  pub columns : List Bytes
  pub rows : List (List Bytes)
  pub row_count : ℕ
  pub truncated : Bool

pub record Tested : Type 0 where
  pub ok : Bool
  pub error_message : Bytes

-- `sprint` is `fmt.Sprintf("%v", x)`, of nil where there is no value.
pub record Drivers (A : Type 0) (net : Network) : Type 1 where
  pub State : Type 0
  pub Cell : Type 0
  pub marshal : Fields → Result Bytes
  pub url_text : Url → Bytes
  pub sprint : Option Cell → Bytes
  pub prepare : Adapter A net.Client → Bytes → Bytes → State → Option Error × State
  pub execute : Adapter A net.Client → Bytes → Bytes → ℕ → State → Result (List (Dict Cell)) × State
  pub test_connection : Adapter A net.Client → Bytes → State → Option Error × State
  pub get_schema : Adapter A net.Client → Bytes → State → Result (List TableInfo) × State

-- A table of an answer.
abbrev pub pb_table : TableInfo → TableInfo
pb_table t = record {
  name = t.name;
  columns =
      map (λ c. record { name = c.name; data_type = c.data_type; nullable = c.nullable }) t.columns;
}

module _ (A : Type 0) (net : Network) (drivers : Drivers A net) where
  abbrev marshalled : Result Bytes → Result Bytes
  marshalled (ok payload) = ok payload
  marshalled (err e) = err (wrap (codes "marshal plugin params") e)

  -- `connectionConfig`.
  unfoldable pub connection_config : Bytes → Fields → Registry.Registry A net → Result Bytes
  connection_config t params r =
      if is_external A net t r
      then marshalled (drivers.marshal params)
      else build_dsn drivers.url_text t params

  abbrev pub values : List Bytes → Dict drivers.Cell → List Bytes
  values columns row = map (λ c. drivers.sprint (lookup c row)) columns

  -- The loop over the rows: the columns are those of the first row that has any.
  pub pb_rows : List Bytes → List (Dict drivers.Cell) → List Bytes × List (List Bytes)
  pb_rows columns [] = (columns, [])
  pb_rows [] (row ∷ rest) =
      let columns = map (λ entry. entry.0) row in
      let (last, out) = pb_rows columns rest in (last, values columns row ∷ out)
  pb_rows (c ∷ columns) (row ∷ rest) =
      let (last, out) = pb_rows (c ∷ columns) rest in (last, values (c ∷ columns) row ∷ out)

  abbrev response_of : List Bytes × List (List Bytes) → Response
  response_of (columns, rows) = record {
    columns = columns;
    rows = rows;
    row_count = length rows;
    truncated = false;
  }

  -- Behind the adapter's `ExecuteQuery`.
  pub with_rows :
      Result (List (Dict drivers.Cell)) × drivers.State → Result Response × drivers.State
  with_rows (err e, s) = (err (wrap (codes "execute query") e), s)
  with_rows (ok rows, s) = (ok (response_of (pb_rows [] rows)), s)

  -- Behind `Prepare`.
  pub with_prepared :
      Adapter A net.Client
      → Request
      → Option Error × drivers.State
      → Result Response × drivers.State
  with_prepared a req (some e, s) = (err (wrap (codes "prepare adapter") e), s)
  with_prepared a req (none, s) =
      with_rows (drivers.execute a req.connection_id req.sql req.limit s)

  -- Behind `connectionConfig`.
  pub with_config :
      Adapter A net.Client
      → Request
      → drivers.State
      → Result Bytes
      → Result Response × drivers.State
  with_config a req s (err e) = (err (wrap (codes "build connection config") e), s)
  with_config a req s (ok dsn) = with_prepared a req (drivers.prepare a req.connection_id dsn s)

  pub with_adapter :
      Registry.Registry A net
      → Request
      → drivers.State
      → Result (Adapter A net.Client)
      → Result Response × drivers.State
  with_adapter r req s (err e) = (err e, s)
  with_adapter r req s (ok a) =
      with_config a req s (connection_config req.adapter_type req.params r)

  -- `ExecuteQuery`.
  unfoldable pub execute_query :
      Registry.Registry A net → Request → drivers.State → Result Response × drivers.State
  unfolding with_adapter with_config with_prepared with_rows pb_rows connection_config
  execute_query r req s = with_adapter r req s (get A net req.adapter_type r)

  abbrev failed_test : Error → Tested
  failed_test e = record { ok = false; error_message = error_text e }

  abbrev tested : Option Error × drivers.State → Tested × drivers.State
  tested (none, s) = (record { ok = true; error_message = [] }, s)
  tested (some e, s) = (failed_test e, s)

  abbrev config_tested :
      Adapter A net.Client → drivers.State → Result Bytes → Tested × drivers.State
  config_tested a s (err e) = (failed_test e, s)
  config_tested a s (ok dsn) = tested (drivers.test_connection a dsn s)

  abbrev adapter_tested :
      Registry.Registry A net
      → Bytes
      → Fields
      → drivers.State
      → Result (Adapter A net.Client)
      → Tested × drivers.State
  adapter_tested r t params s (err e) = (failed_test e, s)
  adapter_tested r t params s (ok a) = config_tested a s (connection_config t params r)

  -- `TestConnection`, but for the latency.
  unfoldable pub test_connection :
      Registry.Registry A net → Bytes → Fields → drivers.State → Tested × drivers.State
  test_connection r t params s = adapter_tested r t params s (get A net t r)

  abbrev pub with_tables :
      Result (List TableInfo) × drivers.State → Result (List TableInfo) × drivers.State
  with_tables (err e, s) = (err (wrap (codes "get schema") e), s)
  with_tables (ok tables, s) = (ok (map pb_table tables), s)

  abbrev pub schema_with :
      Adapter A net.Client → drivers.State → Result Bytes → Result (List TableInfo) × drivers.State
  schema_with a s (err e) = (err e, s)
  schema_with a s (ok dsn) = with_tables (drivers.get_schema a dsn s)

  abbrev pub schema_of :
      Registry.Registry A net
      → Bytes
      → Fields
      → drivers.State
      → Result (Adapter A net.Client)
      → Result (List TableInfo) × drivers.State
  schema_of r t params s (err e) = (err e, s)
  schema_of r t params s (ok a) = schema_with a s (connection_config t params r)

  -- `GetSchema`.
  unfoldable pub get_schema :
      Registry.Registry A net
      → Bytes
      → Fields
      → drivers.State
      → Result (List TableInfo) × drivers.State
  get_schema r t params s = schema_of r t params s (get A net t r)
