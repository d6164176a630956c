-- ===== src/Connection/Tests.antt =====
-- A registry whose adapters are names, a plugin that is routed to, and the theorems at them.
use n.Base.{
  ℕ, ◌≡◌, ◌↔◌, ◌⊎◌, refl, true, false, List, [], ◌∷◌, ◌++◌, none, Bytes, codes, eq, contains,
  is_empty, lookup, insert, delete,
}
use n.Job.Backend.{ok}
use n.Worker.Value.{text, Fields, field, end, get_field}
use n.Connection.Dsn.{Url, get_string, build_dsn, server_types, build_dsn_iff}
use n.Connection.Registry
use n.Connection.Registry.{
  Builtins, Network, Adapter, built_in, external_adapter, register_builtins, new_registry,
  external_of, builtin_or, get, is_external,
}
use n.Connection.Registry.Routes.{Call, route, remove, steps, client_of, routed, get-steps}
use n.Connection.Service.{Request, Response, Drivers, execute_query, connection_config, get_schema}
use n.Connection.Service.Answers.{Executed, execute_query-Executed}

abbrev made : Builtins Bytes
made = record {
  postgres = codes "pg";
  clickhouse = codes "ch";
  mysql = codes "my";
  sqlite = codes "lite";
  mssql = codes "ms";
  bigquery = codes "bq";
}

abbrev network : Network
network = record { Conn = Bytes; Client = Bytes; new_conn = λ e. ok e; new_client = λ c. c }

abbrev calls : List (Call Bytes network)
calls =
    route (codes "oracle") (codes "h:1") (codes "active")
    ∷ route (codes "oracle") (codes "h:2") (codes "active")
    ∷ remove (codes "db2")
    ∷ []

-- The second route has taken the place of the first.
oracle_routed :
    get Bytes network (codes "oracle") (steps Bytes network calls (new_registry Bytes network made))
    ≡ ok (external_adapter (codes "h:2"))
unfolding get steps Registry.route_external Registry.remove_external lookup insert delete eq
oracle_routed = refl

get-steps_example :
    get Bytes network (codes "oracle") (steps Bytes network calls (new_registry Bytes network made))
    ≡ builtin_or Bytes network
        (external_of Bytes network
          (codes "oracle")
          (client_of Bytes network (routed Bytes network (codes "oracle") calls none)))
        (lookup (codes "oracle") (register_builtins Bytes network made))
get-steps_example = get-steps Bytes network made calls (codes "oracle")

abbrev url_text : Url → Bytes
url_text u = u.scheme ++ (codes "://" ++ (u.host ++ (codes "/" ++ u.path)))

abbrev params : Fields
params = field (codes "database") (text (codes "d")) end

build_dsn_iff_example : ((s : Bytes) × (build_dsn url_text (codes "mysql") params ≡ ok s)) ↔ (
    (contains (server_types url_text) (codes "mysql") ≡ true)
    ⊎ ((eq (codes "bigquery") (codes "mysql") ≡ true)
        × (is_empty (get_string params (codes "project_id")) ≡ false)))
build_dsn_iff_example = build_dsn_iff url_text (codes "mysql") params

mysql_built :
    build_dsn url_text (codes "mysql") params ≡ ok (codes ":@tcp(localhost:3306)/d?parseTime=true")
unfolding build_dsn eq get_field
mysql_built = refl

abbrev drivers : Drivers Bytes network
drivers = record {
  State = ℕ;
  Cell = ℕ;
  marshal = λ m. ok (codes "{}");
  url_text = url_text;
  sprint = λ x. codes "v";
  prepare = λ a id dsn s. (none, 1);
  execute = λ a id sql limit s. (ok (((codes "a", 5) ∷ []) ∷ []), 2);
  test_connection = λ a dsn s. (none, s);
  get_schema = λ a dsn s. (ok (record { name = dsn; columns = [] } ∷ []), s);
}

abbrev request : Request
request = record {
  connection_id = codes "c1";
  sql = codes "SELECT 1";
  limit = 0;
  adapter_type = codes "mysql";
  params = params;
}

abbrev response : Response
response = record {
  columns = codes "a" ∷ [];
  rows = (codes "v" ∷ []) ∷ [];
  row_count = 1;
  truncated = false;
}

executed :
    execute_query Bytes network drivers (new_registry Bytes network made) request 0
    ≡ (ok response, 2)
unfolding execute_query connection_config get is_external lookup eq build_dsn get_field
executed = refl

execute_query-Executed_example :
    Executed Bytes network drivers (new_registry Bytes network made) request 0 2 response
execute_query-Executed_example =
    execute_query-Executed Bytes network drivers (new_registry Bytes network made) request 0 2
      response executed

schema_answered :
    get_schema Bytes network drivers (new_registry Bytes network made) (codes "mysql") params 3
    ≡ (ok (record { name = codes ":@tcp(localhost:3306)/d?parseTime=true"; columns = [] } ∷ []), 3)
unfolding get_schema connection_config get is_external lookup eq build_dsn get_field
schema_answered = refl
