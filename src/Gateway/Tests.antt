-- ===== src/Gateway/Tests.antt =====
-- A gateway whose services answer, a request with a token, and the theorems at it.
use n.Base.{
  Bool, ◌≡◌, refl, true, false, List, [], ◌∷◌, Option, none, some, Bytes, codes, Unicode, ascii, eq,
  atoi_value, int32_of,
}
use n.Job.Backend.{job_not_found, ok, err}
use n.Shared.Jwt.{Claims, Library, verify}
use n.Worker.Value.{text, field, end}
use n.Gateway.Types.{Request, Connection, Call, submit_query, connection, Environment, Server}
use n.Gateway.Handlers.{handle_get_connection, handle_submit_query, set_meta_http_base}
use n.Gateway.Serve.{Route, routes, serve}
use n.Gateway.Access.{Allowed, serve-Allowed}
use n.Gateway.Redaction.{Safe, serve-Safe}

instance abbrev go_ascii : Unicode
go_ascii = ascii

abbrev pub claims : Claims
claims = record {
  subject = codes "a1";
  issuer = codes "n0";
  audience = codes "n0-platform" ∷ [];
  expires_at = 100;
  issued_at = 10;
  id = codes "id";
  user_id = codes "u1";
  email = [];
  token_type = codes "agent";
}

-- It takes every token for that of one agent.
abbrev pub library : Library
library = record {
  sign = λ secret c. ok (codes "token");
  parse = λ o k x. ok (record { claims = claims; valid = true });
}

abbrev pub stored : Connection (Unit {0})
stored = record {
  id = codes "c1";
  workspace_id = codes "w1";
  tenant_id = codes "u1";
  name = codes "db";
  adapter_type = codes "postgres";
  params = some (field (codes "password") (text (codes "secret")) end);
  created_at = tt;
}

abbrev pub if_authorization : Bool → Bytes
if_authorization true = codes "Bearer token"
if_authorization false = []

-- A query string is the value of its one parameter, and a body is the SQL of a query.
abbrev pub environment : Environment
environment = record {
  Opaque = Unit {0};
  jwt = library;
  now = 50;
  token_id = codes "id";
  get_header = λ headers name. if_authorization (eq name (codes "Authorization"));
  query_get = λ raw key. raw;
  query_set = λ raw key value. value;
  check_url = λ method url. none;
  decode_query = λ body. some (codes "c1", body);
  decode_test = λ body. err job_not_found;
  decode_connection = λ body. err job_not_found;
  decode_plugin = λ body. err job_not_found;
  decode_user = λ body. err job_not_found;
  new_struct = λ m. ok m;
  get_schema = λ id t. ok none;
  submit_query = λ r. ok (record { job_id = codes "j1"; status = codes "pending" });
  get_job_status = λ id t. err job_not_found;
  get_job_result = λ id t page size. err job_not_found;
  test_connection = λ a p. ok tt;
  create_connection = λ r. ok (some stored);
  list_connections = λ t w p. ok (some stored ∷ [], tt);
  get_connection = λ id t. ok (some stored);
  delete_connection = λ id t. ok tt;
  register_plugin = λ r. ok tt;
  list_workspaces = λ t p. ok ([], tt);
  send = λ p. err job_not_found;
  read_tool = λ r. none;
  quoted = λ s. s;
}

abbrev pub server : Server
server = record {
  jwt_manager = some (record { secret = codes "s"; issuer = codes "n0"; expiry = 60 });
  meta_http_base = codes "http://meta";
  allowed_origins = [];
}

abbrev request : Request
request = record {
  method = codes "POST";
  path = codes "/v1/query";
  raw_query = [];
  headers = [];
  body = codes "SELECT 1";
}

-- A router that knows one route.
abbrev pub find : List (Bytes × Bytes × Route) → Request → Option (Route × Bytes)
find table r = some (Route.query, [])

abbrev call : Call
call =
    submit_query
      (record { tenant_id = codes "u1"; connection_id = codes "c1"; sql = codes "SELECT 1" })

served : (serve environment find server request).call ≡ some call
unfolding serve verify handle_submit_query
served = refl

serve-Allowed_example :
    Allowed environment
      (record { secret = codes "s"; issuer = codes "n0"; expiry = 60 })
      request
      call
      (find routes request)
serve-Allowed_example =
    serve-Allowed environment find server
      (record { secret = codes "s"; issuer = codes "n0"; expiry = 60 }) request call
      (λ raw key value. refl) refl served

-- A router that knows the route of one connection.
abbrev find_connection : List (Bytes × Bytes × Route) → Request → Option (Route × Bytes)
find_connection table r = some (Route.one_connection, codes "c1")

abbrev connection_request : Request
connection_request = record request { method = codes "GET"; path = codes "/v1/connections/c1" }

-- Meta Service answers with the parameters of the connection, the gateway without.
connection_redacted :
    (serve environment find_connection server connection_request).response.body
    ≡ connection (some (record stored { params = none }))
unfolding serve verify handle_get_connection
connection_redacted = refl

serve-Safe_example : Safe environment (serve environment find_connection server connection_request)
serve-Safe_example = serve-Safe environment find_connection server connection_request

-- A page that does not fit into an int32 wraps around.
page_wraps : int32_of (atoi_value (codes "4294967297")) ≡ (false, 1)
unfolding int32_of atoi_value
page_wraps = refl

page_overflows : int32_of (atoi_value (codes "99999999999999999999")) ≡ (true, 1)
unfolding int32_of atoi_value
page_overflows = refl

base_set : (set_meta_http_base (codes " http://m:1// ") server).meta_http_base ≡ codes "http://m:1"
unfolding set_meta_http_base
base_set = refl
