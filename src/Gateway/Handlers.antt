-- ===== src/Gateway/Handlers.antt =====
-- gateway.go: the handlers. `who` is what the JWT middleware has put into the context.
use n.Base.{
  ℕ, false, not, List, [], ◌∷◌, ◌++◌, map, Option, none, some, Bytes, codes, is_empty, ◌==◌,
  atoi_value, int32_of, is_positive, Signed, trim_space, trim_right, if◌then◌else◌,
}
use n.Job.Backend.{Error, error_text, Result, ok, err}
use n.Query.{SubmitQueryRequest}
use n.Shared.Jwt.{Claims, generate_user_token, generate_agent_token}
use n.Worker.Value.{Fields}
use n.Gateway.Types.{
  Request, Connection, CreateConnectionRequest, RegisterPluginRequest, Proxied, Pagination, Call,
  get_schema, submit_query, get_job_status, get_job_result, test_connection, create_connection,
  list_connections, get_connection, delete_connection, register_plugin, list_workspaces, proxied,
  Replied, User, Body, raw, opaque, snapshot, submitted, job_status, job_result, connection,
  connections, workspaces, logged_in, agent_token, Handled, Environment, Server,
}

-- `SetMetaHTTPBase`.
unfoldable pub set_meta_http_base : Bytes → Server → Server
unfolding trim_right trim_space
set_meta_http_base base s =
    let trimmed = trim_right (λ c. c == b'/') (trim_space base) in
    if is_empty trimmed then s else record s { meta_http_base = trimmed }

-- `getUserID`.
abbrev pub get_user_id : Option Claims → Bytes
get_user_id none = []
get_user_id (some claims) = claims.user_id

module _ (env : Environment) where
  abbrev pub Out : Type 0
  Out = Handled env.Opaque

  abbrev pub json_type : List (Bytes × Bytes)
  json_type = (codes "Content-Type", codes "application/json") ∷ []

  -- `http.Error`, whose headers are the library's.
  abbrev pub http_error : Option Call → ℕ → Bytes → Out
  http_error call status text = record {
    call = call;
    response = record { status = status; headers = []; body = raw text };
  }

  abbrev pub answer : Option Call → ℕ → Body env.Opaque → Out
  answer call status body = record {
    call = call;
    response = record { status = status; headers = json_type; body = body };
  }

  -- The end of most handlers: an error of the service, or its answer.
  abbrev pub encoded {ℓ} : {A : Type ℓ} → Call → ℕ → (A → Body env.Opaque) → Result A → Out
  encoded call status body (err e) = http_error (some call) 500 (error_text e)
  encoded call status body (ok a) = answer (some call) status (body a)

  abbrev pub query_value : Request → Bytes → Bytes
  query_value r key = env.query_get r.raw_query key

  -- `handleGetSchema`.
  unfoldable pub handle_get_schema : Option Claims → Request → Out
  handle_get_schema who r =
      let id = query_value r (codes "connection_id") in
      encoded (get_schema id (get_user_id who)) 200 snapshot (env.get_schema id (get_user_id who))

  abbrev pub submitted_for : Bytes → Option (Bytes × Bytes) → Out
  submitted_for tenant none = http_error none 400 (codes "invalid request body")
  submitted_for tenant (some (id, sql)) =
      let req : SubmitQueryRequest = record { tenant_id = tenant; connection_id = id; sql = sql } in
      encoded (submit_query req) 200 submitted (env.submit_query req)

  -- `handleSubmitQuery`.
  unfoldable pub handle_submit_query : Option Claims → Request → Out
  handle_submit_query who r = submitted_for (get_user_id who) (env.decode_query r.body)

  -- `handleGetJobStatus`.
  unfoldable pub handle_get_job_status : Option Claims → Request → Out
  handle_get_job_status who r =
      let id = query_value r (codes "job_id") in
      encoded (get_job_status id (get_user_id who)) 200 job_status
        (env.get_job_status id (get_user_id who))

  -- `handleGetJobResult`.
  unfoldable pub handle_get_job_result : Option Claims → Request → Out
  handle_get_job_result who r =
      let id = query_value r (codes "job_id") in
      let page = int32_of (atoi_value (query_value r (codes "page"))) in
      let size = int32_of (atoi_value (query_value r (codes "page_size"))) in
      encoded (get_job_result id (get_user_id who) page size) 200 job_result
        (env.get_job_result id (get_user_id who) page size)

  abbrev pub tested_with : Bytes → Result Fields → Out
  tested_with adapter_type (err e) = http_error none 400 (error_text e)
  tested_with adapter_type (ok params) =
      encoded (test_connection adapter_type params) 200 opaque
        (env.test_connection adapter_type params)

  abbrev pub tested_for : Result (Bytes × Fields) → Out
  tested_for (err e) = http_error none 400 (error_text e)
  tested_for (ok (adapter_type, params)) = tested_with adapter_type (env.new_struct params)

  -- `handleTestConnection`.
  unfoldable pub handle_test_connection : Option Claims → Request → Out
  handle_test_connection who r = tested_for (env.decode_test r.body)

  -- `redactConnectionParams`.
  abbrev pub redact : Option (Connection env.Opaque) → Option (Connection env.Opaque)
  redact none = none
  redact (some c) = some (record c { params = none })

  abbrev pub created_for : Bytes → Result CreateConnectionRequest → Out
  created_for tenant (err e) = http_error none 400 (error_text e)
  created_for tenant (ok body) =
      let req : CreateConnectionRequest = record body { tenant_id = tenant } in
      encoded (create_connection req) 201 (λ c. connection (redact c)) (env.create_connection req)

  -- `handleCreateConnection`.
  unfoldable pub handle_create_connection : Option Claims → Request → Out
  handle_create_connection who r = created_for (get_user_id who) (env.decode_connection r.body)

  -- The page of a list: a limit that is not positive is 20.
  abbrev pub pagination : Signed → Signed → Pagination
  pagination limit offset = record {
    limit = int32_of (if is_positive limit then limit else (false, 20));
    offset = int32_of offset;
  }

  abbrev pub pagination_of : Request → Pagination
  pagination_of r =
      pagination (atoi_value (query_value r (codes "limit")))
        (atoi_value (query_value r (codes "offset")))

  -- `handleListConnections`.
  unfoldable pub handle_list_connections : Option Claims → Request → Out
  handle_list_connections who r =
      let workspace = query_value r (codes "workspace_id") in
      encoded (list_connections (get_user_id who) workspace (pagination_of r)) 200
        (λ found. connections (map redact found.0) found.1)
        (env.list_connections (get_user_id who) workspace (pagination_of r))

  abbrev pub got_connection : Call → Result (Option (Connection env.Opaque)) → Out
  got_connection call (err e) = http_error (some call) 500 (error_text e)
  got_connection call (ok none) = http_error (some call) 404 (codes "not found")
  got_connection call (ok (some c)) = answer (some call) 200 (connection (redact (some c)))

  -- `handleGetConnection`, for the ID in the path.
  unfoldable pub handle_get_connection : Option Claims → Bytes → Out
  handle_get_connection who id =
      got_connection (get_connection id (get_user_id who)) (env.get_connection id (get_user_id who))

  -- `handleDeleteConnection`.
  unfoldable pub handle_delete_connection : Option Claims → Bytes → Out
  handle_delete_connection who id =
      encoded (delete_connection id (get_user_id who)) 200 opaque
        (env.delete_connection id (get_user_id who))

  abbrev pub registered_for : Bytes → Result RegisterPluginRequest → Out
  registered_for tenant (err e) = http_error none 400 (error_text e)
  registered_for tenant (ok body) =
      let req : RegisterPluginRequest = record body { tenant_id = tenant; is_global = false } in
      encoded (register_plugin req) 200 opaque (env.register_plugin req)

  -- `handleRegisterPlugin`.
  unfoldable pub handle_register_plugin : Option Claims → Request → Out
  handle_register_plugin who r = registered_for (get_user_id who) (env.decode_plugin r.body)

  -- `handleListWorkspaces`.
  unfoldable pub handle_list_workspaces : Option Claims → Request → Out
  handle_list_workspaces who r =
      encoded (list_workspaces (get_user_id who) (pagination_of r)) 200
        (λ found. workspaces found.0 found.1)
        (env.list_workspaces (get_user_id who) (pagination_of r))

  abbrev pub copied : Proxied → Result Replied → Out
  copied p (err e) = http_error (some (proxied p)) 500 (error_text e)
  copied p (ok reply) = record {
    call = some (proxied p);
    response = record { status = reply.status; headers = reply.headers; body = raw reply.body };
  }

  abbrev pub sent_on : Proxied → Option Error → Out
  sent_on p (some e) = http_error none 500 (error_text e)
  sent_on p none = copied p (env.send p)

  -- The request that the proxy makes: the query names the authenticated user, if there is one.
  abbrev pub proxy_request : Server → Option Claims → Request → Proxied
  proxy_request s who r = record {
    method = r.method;
    url = s.meta_http_base ++ r.path;
    raw_query =
        if is_empty (get_user_id who)
        then r.raw_query
        else env.query_set r.raw_query (codes "user_id") (get_user_id who);
    headers = r.headers;
    body = r.body;
  }

  -- `proxyToMetaHTTP`.
  unfoldable pub proxy_to_meta_http : Server → Option Claims → Request → Out
  proxy_to_meta_http s who r =
      let url = s.meta_http_base ++ r.path in
      sent_on (proxy_request s who r) (
        env.check_url r.method
          (if is_empty r.raw_query then url else url ++ (codes "?" ++ r.raw_query)))

  abbrev pub with_user_token : Proxied → User → Result Bytes → Out
  with_user_token p user (err e) = http_error (some (proxied p)) 500 (error_text e)
  with_user_token p user (ok token) = answer (some (proxied p)) 200 (logged_in user token)

  abbrev pub with_user : Server → Proxied → Bytes → Result User → Out
  with_user s p body (err e) = http_error (some (proxied p)) 500 (error_text e)
  with_user s p body (ok user) = elim s.jwt_manager [
    | none ↦ answer (some (proxied p)) 200 (raw body)
    | some m ↦
        with_user_token p user
          (generate_user_token env.jwt m env.now env.token_id user.user_id user.email)
  ]

  abbrev pub with_login : Server → Proxied → Result Replied → Out
  with_login s p (err e) = http_error (some (proxied p)) 500 (error_text e)
  with_login s p (ok reply) =
      if not (reply.status == 200)
      then record {
        call = some (proxied p);
        response = record { status = reply.status; headers = []; body = raw reply.body };
      }
      else with_user s p reply.body (env.decode_user reply.body)

  abbrev pub login_checked : Server → Proxied → Option Error → Out
  login_checked s p (some e) = http_error none 500 (error_text e)
  login_checked s p none = with_login s p (env.send p)

  -- `handleLogin`.
  unfoldable pub handle_login : Server → Request → Out
  handle_login s r =
      let p : Proxied = record {
        method = r.method;
        url = s.meta_http_base ++ codes "/v1/auth/login";
        raw_query = [];
        headers = (codes "Content-Type", env.get_header r.headers (codes "Content-Type")) ∷ [];
        body = r.body;
      } in
      login_checked s p (env.check_url r.method (s.meta_http_base ++ codes "/v1/auth/login"))

  abbrev pub with_agent_token : Bytes → Result Bytes → Out
  with_agent_token id (err e) = http_error none 500 (error_text e)
  with_agent_token id (ok token) = answer none 200 (agent_token id token)

  -- `handleGenerateAgentToken`.
  unfoldable pub handle_generate_agent_token : Server → Option Claims → Bytes → Out
  handle_generate_agent_token s who id =
      if is_empty (get_user_id who)
      then http_error none 401 (codes "unauthorized")
      else elim s.jwt_manager [
        | none ↦ http_error none 500 (codes "jwt not configured")
        | some m ↦
            with_agent_token id
              (generate_agent_token env.jwt m env.now env.token_id id (get_user_id who))
      ]
