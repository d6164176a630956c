-- ===== src/Gateway/Serve.antt =====
-- gateway.go: the middlewares and the routes. The router of the library finds the route of a request
-- in the table, with the ID in its path. Request IDs, the recovery of panics and the limit on the
-- size of a body are the library's.
use n.Base.{
  Bool, true, false, not, List, [], ◌∷◌, ◌++◌, Option, none, some, Bytes, codes, eq, is_empty,
  contains, trim_space, split_two, Unicode, if◌then◌else◌,
}
use n.Job.Backend.{Result, ok, err}
use n.Shared.Jwt.{Claims, Manager, verify}
use n.Gateway.Types.{Request, raw, Handled, Environment, Server}
use n.Gateway.Handlers.{
  http_error, handle_get_schema, handle_submit_query, handle_get_job_status, handle_get_job_result,
  handle_test_connection, handle_create_connection, handle_list_connections, handle_get_connection,
  handle_delete_connection, handle_register_plugin, handle_list_workspaces, proxy_to_meta_http,
  handle_login, handle_generate_agent_token,
}
use n.Gateway.Mcp.{handle_mcp}

pub data Route : Type 0 where
  health register login : Route
  mcp me agents new_agent agent_token_route schema query query_status query_result : Route
  test_connection_route new_connection all_connections one_connection drop_connection : Route
  register_plugin_route all_workspaces : Route

-- The table of `handler`; a route without a method takes any.
unfoldable pub routes : List (Bytes × Bytes × Route)
routes =
    (codes "GET", codes "/health", health)
    ∷ (codes "POST", codes "/v1/auth/register", register)
    ∷ (codes "POST", codes "/v1/auth/login", login)
    ∷ ([], codes "/mcp", mcp)
    ∷ (codes "GET", codes "/v1/auth/me", me)
    ∷ (codes "GET", codes "/v1/agents", agents)
    ∷ (codes "POST", codes "/v1/agents", new_agent)
    ∷ (codes "POST", codes "/v1/agents/{id}/token", agent_token_route)
    ∷ (codes "GET", codes "/v1/schema", schema)
    ∷ (codes "POST", codes "/v1/query", query)
    ∷ (codes "GET", codes "/v1/query/status", query_status)
    ∷ (codes "GET", codes "/v1/query/result", query_result)
    ∷ (codes "POST", codes "/v1/test-connection", test_connection_route)
    ∷ (codes "POST", codes "/v1/connections", new_connection)
    ∷ (codes "GET", codes "/v1/connections", all_connections)
    ∷ (codes "GET", codes "/v1/connections/{id}", one_connection)
    ∷ (codes "DELETE", codes "/v1/connections/{id}", drop_connection)
    ∷ (codes "POST", codes "/v1/plugins/register", register_plugin_route)
    ∷ (codes "GET", codes "/v1/workspaces", all_workspaces)
    ∷ []

-- The routes outside of the group behind the JWT middleware.
abbrev pub is_public : Route → Bool
is_public health = true
is_public register = true
is_public login = true
is_public route = false

-- The origins of `NewServer` that are not blank.
unfoldable pub origins : List Bytes → List Bytes
unfolding trim_space
origins [] = []
origins (origin ∷ rest) =
    let trimmed = trim_space origin in
    if is_empty trimmed then origins rest else trimmed ∷ origins rest

-- The end of the JWT middleware: a refusal, or what is put into the context.
pub data Auth : Type 0 where
  denied : Bytes → Auth
  passed : Option Claims → Auth

module _ ⦃u : Unicode⦄ (env : Environment) where
  abbrev pub verified : Result Claims → Auth
  verified (err e) = denied (codes "invalid token")
  verified (ok claims) = passed (some claims)

  abbrev pub with_parts : Manager → Option (Bytes × Bytes) → Auth
  with_parts m none = denied (codes "invalid authorization header")
  with_parts m (some (scheme, token)) =
      if not (eq (u.to_lower scheme) (codes "bearer"))
      then denied (codes "invalid authorization header")
      else verified (verify env.jwt m env.now token)

  abbrev pub with_manager : Request → Option Manager → Auth
  with_manager r none = passed none
  with_manager r (some m) =
      let auth = env.get_header r.headers (codes "Authorization") in
      if is_empty auth
      then denied (codes "missing authorization header")
      else with_parts m (split_two b' ' auth)

  -- `jwtMiddleware`, up to the call of the next handler.
  unfoldable pub authenticate : Server → Request → Auth
  unfolding split_two eq
  authenticate s r = with_manager r s.jwt_manager

  abbrev pub handle_public : Server → Request → Bytes → Route → Handled env.Opaque
  handle_public s r id register = proxy_to_meta_http env s none r
  handle_public s r id login = handle_login env s r
  handle_public s r id route = http_error env none 200 (codes "ok")

  abbrev pub handle_protected :
      Server → Option Claims → Request → Bytes → Route → Handled env.Opaque
  handle_protected s who r id mcp = handle_mcp env who r
  handle_protected s who r id me = proxy_to_meta_http env s who r
  handle_protected s who r id agents = proxy_to_meta_http env s who r
  handle_protected s who r id new_agent = proxy_to_meta_http env s who r
  handle_protected s who r id agent_token_route = handle_generate_agent_token env s who id
  handle_protected s who r id schema = handle_get_schema env who r
  handle_protected s who r id query = handle_submit_query env who r
  handle_protected s who r id query_status = handle_get_job_status env who r
  handle_protected s who r id query_result = handle_get_job_result env who r
  handle_protected s who r id test_connection_route = handle_test_connection env who r
  handle_protected s who r id new_connection = handle_create_connection env who r
  handle_protected s who r id all_connections = handle_list_connections env who r
  handle_protected s who r id one_connection = handle_get_connection env who id
  handle_protected s who r id drop_connection = handle_delete_connection env who id
  handle_protected s who r id register_plugin_route = handle_register_plugin env who r
  handle_protected s who r id all_workspaces = handle_list_workspaces env who r
  handle_protected s who r id route = http_error env none 404 []

  abbrev pub guarded : Server → Request → Bytes → Route → Auth → Handled env.Opaque
  guarded s r id route (denied text) = http_error env none 401 text
  guarded s r id route (passed who) = handle_protected s who r id route

  -- A request on a route.
  unfoldable pub on_route : Server → Request → Bytes → Route → Handled env.Opaque
  on_route s r id route =
      if is_public route
      then handle_public s r id route
      else guarded s r id route (authenticate s r)

  abbrev pub routed : Server → Request → Option (Route × Bytes) → Handled env.Opaque
  routed s r none = http_error env none 404 (codes "404 page not found")
  routed s r (some (route, id)) = on_route s r id route

  abbrev pub cors_headers : List (Bytes × Bytes)
  cors_headers =
      (codes "Access-Control-Allow-Methods", codes "GET, POST, PUT, DELETE, OPTIONS")
      ∷ (
        codes "Access-Control-Allow-Headers",
        codes "Content-Type, Authorization, Accept, Mcp-Protocol-Version, Mcp-Session-Id",
      )
      ∷ (codes "Access-Control-Expose-Headers", codes "Mcp-Protocol-Version, Mcp-Session-Id")
      ∷ []

  abbrev pub with_headers : List (Bytes × Bytes) → Handled env.Opaque → Handled env.Opaque
  with_headers headers h = record h {
    response = record (h.response) { headers = headers ++ h.response.headers };
  }

  abbrev pub preflight : Request → Handled env.Opaque → Handled env.Opaque
  preflight r next =
      if eq r.method (codes "OPTIONS")
      then record { call = none; response = record { status = 200; headers = []; body = raw [] } }
      else next

  abbrev pub origin_of : Request → Bytes
  origin_of r = env.get_header r.headers (codes "Origin")

  -- `corsMiddleware`.
  unfoldable pub cors : Server → Request → Handled env.Opaque → Handled env.Opaque
  cors s r next =
      if is_empty (origin_of r)
      then with_headers cors_headers (preflight r next)
      else if not (contains s.allowed_origins (origin_of r))
      then http_error env none 403 (codes "origin not allowed")
      else with_headers
          ((codes "Access-Control-Allow-Origin", origin_of r)
            ∷ (codes "Vary", codes "Origin")
            ∷ cors_headers)
          (preflight r next)

  -- What the server makes of a request; `match_route` is the router's search of the table.
  unfoldable pub serve :
      (List (Bytes × Bytes × Route) → Request → Option (Route × Bytes))
      → Server
      → Request
      → Handled env.Opaque
  unfolding cors on_route authenticate contains eq
  serve match_route s r = cors s r (routed s r (match_route routes r))
