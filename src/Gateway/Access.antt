-- ===== src/Gateway/Access.antt =====
-- gateway.go, mcp.go: what the gateway sends on, and for whom.
use n.Base.{
  ◌≡◌, inl, inr, refl, true, false, List, Option, none, some, Bytes, codes, eq, is_empty, contains,
  Bool-cases, Unicode, split_two, Signed,
}
use n.Job.Backend.{Error, Result, ok, err}
use n.Shared.Jwt.{Claims, Manager, verify}
use n.Shared.Jwt.Roundtrip.{verify-user_named}
use n.Worker.Value.{Fields}
use n.Gateway.Types.{
  Request, Connection, CreateConnectionRequest, RegisterPluginRequest, Proxied, Call, get_schema,
  submit_query, get_job_status, get_job_result, test_connection, create_connection,
  list_connections, get_connection, delete_connection, register_plugin, list_workspaces, proxied,
  Replied, Body, Handled, Environment, Server, ToolCall, ToolOutput,
}
use n.Gateway.Handlers
use n.Gateway.Handlers.{get_user_id, encoded, proxy_request}
use n.Gateway.Mcp
use n.Gateway.Serve
use n.Gateway.Serve.{
  Route, is_public, denied, passed, authenticate, handle_protected, guarded, on_route, routed,
  preflight, origin_of, cors, routes, serve, verified, with_parts, with_manager,
}

module _ (env : Environment) where
  -- A request in the name of a tenant: of its tenant ID or, behind the proxy, of the `user_id` of
  -- its query; one that registers a plugin is not for all tenants. A connection test has no tenant.
  abbrev pub Names : Bytes → Call → Type 0
  Names tenant (get_schema id t) = t ≡ tenant
  Names tenant (submit_query req) = req.tenant_id ≡ tenant
  Names tenant (get_job_status id t) = t ≡ tenant
  Names tenant (get_job_result id t page size) = t ≡ tenant
  Names tenant (test_connection adapter_type params) = Unit
  Names tenant (create_connection req) = req.tenant_id ≡ tenant
  Names tenant (list_connections t workspace page) = t ≡ tenant
  Names tenant (get_connection id t) = t ≡ tenant
  Names tenant (delete_connection id t) = t ≡ tenant
  Names tenant (register_plugin req) = (req.tenant_id ≡ tenant) × (req.is_global ≡ false)
  Names tenant (list_workspaces t page) = t ≡ tenant
  Names tenant (proxied p) = env.query_get p.raw_query (codes "user_id") ≡ tenant

  -- Every request that is sent on, if one is, is in the name of the tenant.
  abbrev Only : Bytes → Option Call → Type 0
  Only tenant call = (c : Call) → call ≡ some c → Names tenant c

  Only-none : (tenant : Bytes) → Only tenant none
  Only-none tenant c h = cc h

  Only-some : (tenant : Bytes) (call : Call) → Names tenant call → Only tenant (some call)
  Only-some tenant call n c h = let e : call ≡ c = cc h in rw (← e) n

  encoded-Only {ℓ} :
      {A : Type ℓ} (tenant : Bytes) (call : Call) (status : _) (body : A → Body env.Opaque)
      (found : Result A)
      → Names tenant call
      → Only tenant (encoded env call status body found).call
  encoded-Only tenant call status body (err e) n = Only-some tenant call n
  encoded-Only tenant call status body (ok a) n = Only-some tenant call n

  module _ (s : Server) (who : Option Claims) (r : Request) (id : Bytes) where
    abbrev Ok : Handled env.Opaque → Type 0
    Ok h = Only (get_user_id who) h.call

    handle_get_schema-Only : Ok (Handlers.handle_get_schema env who r)
    unfolding Handlers.handle_get_schema
    handle_get_schema-Only = encoded-Only _ _ _ _ _ refl

    submitted_for-Only :
        (found : Option (Bytes × Bytes)) → Ok (Handlers.submitted_for env (get_user_id who) found)
    submitted_for-Only none = Only-none _
    submitted_for-Only (some (c, sql)) = encoded-Only _ _ _ _ _ refl

    tested_with-Only : (a : Bytes) (found : Result Fields) → Ok (Handlers.tested_with env a found)
    tested_with-Only a (err e) = Only-none _
    tested_with-Only a (ok params) = encoded-Only _ _ _ _ _ tt

    tested_for-Only : (found : Result (Bytes × Fields)) → Ok (Handlers.tested_for env found)
    tested_for-Only (err e) = Only-none _
    tested_for-Only (ok (a, params)) = tested_with-Only a (env.new_struct params)

    created_for-Only :
        (found : Result CreateConnectionRequest)
        → Ok (Handlers.created_for env (get_user_id who) found)
    created_for-Only (err e) = Only-none _
    created_for-Only (ok body) = encoded-Only _ _ _ _ _ refl

    got_connection-Only :
        (call : Call) (found : Result (Option (Connection env.Opaque)))
        → Names (get_user_id who) call
        → Ok (Handlers.got_connection env call found)
    got_connection-Only call (err e) n = Only-some _ call n
    got_connection-Only call (ok none) n = Only-some _ call n
    got_connection-Only call (ok (some c)) n = Only-some _ call n

    registered_for-Only :
        (found : Result RegisterPluginRequest)
        → Ok (Handlers.registered_for env (get_user_id who) found)
    registered_for-Only (err e) = Only-none _
    registered_for-Only (ok body) = encoded-Only _ _ _ _ _ (refl, refl)

    with_agent_token-Only : (found : Result Bytes) → Ok (Handlers.with_agent_token env id found)
    with_agent_token-Only (err e) = Only-none _
    with_agent_token-Only (ok token) = Only-none _

    agent_manager-Only :
        (found : Option Manager)
        → Ok (elim found [
          | none ↦ Handlers.http_error env none 500 (codes "jwt not configured")
          | some m ↦ Handlers.with_agent_token env id (
              n.Shared.Jwt.generate_agent_token env.jwt m env.now env.token_id id (get_user_id who))
        ])
    agent_manager-Only none = Only-none _
    agent_manager-Only (some m) = with_agent_token-Only _

    agent_token-Only : Ok (Handlers.handle_generate_agent_token env s who id)
    unfolding Handlers.handle_generate_agent_token
    agent_token-Only = elim (Bool-cases (is_empty (get_user_id who))) [
      | inl e ↦ rw e (Only-none _)
      | inr e ↦ rw e (agent_manager-Only s.jwt_manager)
    ]

    copied-Only :
        (p : Proxied) (found : Result Replied)
        → Names (get_user_id who) (proxied p)
        → Ok (Handlers.copied env p found)
    copied-Only p (err e) n = Only-some _ (proxied p) n
    copied-Only p (ok reply) n = Only-some _ (proxied p) n

    sent_on-Only :
        (p : Proxied) (found : Option Error)
        → Names (get_user_id who) (proxied p)
        → Ok (Handlers.sent_on env p found)
    sent_on-Only p (some e) n = Only-none _
    sent_on-Only p none n = copied-Only p (env.send p) n

    proxy_request-Names :
        ((raw key value : Bytes) → env.query_get (env.query_set raw key value) key ≡ value)
        → is_empty (get_user_id who) ≡ false
        → Names (get_user_id who) (proxied (proxy_request env s who r))
    proxy_request-Names law named = rw named (law r.raw_query (codes "user_id") (get_user_id who))

    proxy-Only :
        ((raw key value : Bytes) → env.query_get (env.query_set raw key value) key ≡ value)
        → is_empty (get_user_id who) ≡ false
        → Ok (Handlers.proxy_to_meta_http env s who r)
    unfolding Handlers.proxy_to_meta_http
    proxy-Only law named = sent_on-Only _ _ (proxy_request-Names law named)

  module _ (tenant : Bytes) where
    abbrev Told : Option Call × Result (ToolOutput env.Opaque) → Type 0
    Told out = Only tenant out.0

    forwarded-Only {ℓ} :
        {A : Type ℓ} (call : Call) (output : A → Result (ToolOutput env.Opaque)) (found : Result A)
        → Names tenant call
        → Told (Mcp.forwarded env call output found)
    forwarded-Only call output (err e) n = Only-some tenant call n
    forwarded-Only call output (ok a) n = Only-some tenant call n

    schema_for-Only : (found : Result Bytes) → Told (Mcp.schema_for env tenant found)
    schema_for-Only (err e) = Only-none tenant
    schema_for-Only (ok id) = forwarded-Only _ _ _ refl

    submit_sql-Only :
        (id : Bytes) (found : Result Bytes) → Told (Mcp.submit_sql env tenant id found)
    submit_sql-Only id (err e) = Only-none tenant
    submit_sql-Only id (ok sql) = forwarded-Only _ _ _ refl

    submit_for-Only :
        (sql : Bytes) (found : Result Bytes) → Told (Mcp.submit_for env tenant sql found)
    submit_for-Only sql (err e) = Only-none tenant
    submit_for-Only sql (ok id) = submit_sql-Only id _

    status_for-Only : (found : Result Bytes) → Told (Mcp.status_for env tenant found)
    status_for-Only (err e) = Only-none tenant
    status_for-Only (ok id) = forwarded-Only _ _ _ refl

    result_for-Only :
        (page size : Signed) (found : Result Bytes)
        → Told (Mcp.result_for env tenant page size found)
    result_for-Only page size (err e) = Only-none tenant
    result_for-Only page size (ok id) = forwarded-Only _ _ _ refl

    call_tool-Only : (t : ToolCall) → Told (Mcp.call_tool env tenant t)
    unfolding Mcp.call_tool Mcp.mcp_get_schema Mcp.mcp_submit_query Mcp.mcp_get_job_status
        Mcp.mcp_get_job_result Mcp.mcp_list_connections Mcp.mcp_list_workspaces
    call_tool-Only (ToolCall.get_schema_tool id) = schema_for-Only _
    call_tool-Only (ToolCall.submit_query_tool id sql) = submit_for-Only sql _
    call_tool-Only (ToolCall.get_query_status_tool id) = status_for-Only _
    call_tool-Only (ToolCall.get_query_result_tool id page size) = result_for-Only page size _
    call_tool-Only (ToolCall.list_connections_tool w limit offset) = forwarded-Only _ _ _ refl
    call_tool-Only (ToolCall.list_workspaces_tool limit offset) = forwarded-Only _ _ _ refl

    read-Only : (found : Option ToolCall) → Only tenant (Mcp.read env tenant found).call
    read-Only none = Only-none tenant
    read-Only (some t) = call_tool-Only t

  handle_mcp-Only :
      (who : Option Claims) (r : Request) → Only (get_user_id who) (Mcp.handle_mcp env who r).call
  unfolding Mcp.handle_mcp
  handle_mcp-Only who r = read-Only (get_user_id who) (env.read_tool r)

  -- Every protected handler, for a named user.
  handle_protected-Only :
      ⦃u : Unicode⦄ (s : Server) (who : Option Claims) (r : Request) (id : Bytes) (route : Route)
      → ((raw key value : Bytes) → env.query_get (env.query_set raw key value) key ≡ value)
      → is_empty (get_user_id who) ≡ false
      → Only (get_user_id who) (handle_protected env s who r id route).call
  unfolding Handlers.handle_submit_query Handlers.handle_get_job_status
      Handlers.handle_get_job_result Handlers.handle_test_connection
      Handlers.handle_create_connection Handlers.handle_list_connections
      Handlers.handle_get_connection Handlers.handle_delete_connection
      Handlers.handle_register_plugin Handlers.handle_list_workspaces
  handle_protected-Only s who r id Route.mcp law named = handle_mcp-Only who r
  handle_protected-Only s who r id Route.me law named = proxy-Only s who r id law named
  handle_protected-Only s who r id Route.agents law named = proxy-Only s who r id law named
  handle_protected-Only s who r id Route.new_agent law named = proxy-Only s who r id law named
  handle_protected-Only s who r id Route.agent_token_route law named = agent_token-Only s who r id
  handle_protected-Only s who r id Route.schema law named = handle_get_schema-Only s who r id
  handle_protected-Only s who r id Route.query law named = submitted_for-Only s who r id _
  handle_protected-Only s who r id Route.query_status law named = encoded-Only _ _ _ _ _ refl
  handle_protected-Only s who r id Route.query_result law named = encoded-Only _ _ _ _ _ refl
  handle_protected-Only s who r id Route.test_connection_route law named =
      tested_for-Only s who r id _
  handle_protected-Only s who r id Route.new_connection law named = created_for-Only s who r id _
  handle_protected-Only s who r id Route.all_connections law named = encoded-Only _ _ _ _ _ refl
  handle_protected-Only s who r id Route.one_connection law named =
      got_connection-Only s who r id _ _ refl
  handle_protected-Only s who r id Route.drop_connection law named = encoded-Only _ _ _ _ _ refl
  handle_protected-Only s who r id Route.register_plugin_route law named =
      registered_for-Only s who r id _
  handle_protected-Only s who r id Route.all_workspaces law named = encoded-Only _ _ _ _ _ refl
  handle_protected-Only s who r id Route.health law named = Only-none _
  handle_protected-Only s who r id Route.register law named = Only-none _
  handle_protected-Only s who r id Route.login law named = Only-none _

module _ ⦃u : Unicode⦄ (env : Environment) where
  -- The bearer token of a request, verified.
  pub record Bearer (m : Manager) (r : Request) (claims : Claims) : Type 0 where
    pub scheme : Bytes
    pub token : Bytes
    pub header_is :
        split_two b' ' (env.get_header r.headers (codes "Authorization")) ≡ some (scheme, token)
    pub is_bearer : eq (u.to_lower scheme) (codes "bearer") ≡ true
    pub verified : verify env.jwt m env.now token ≡ ok claims

  verified-passed :
      (found : Result Claims) {who : Option Claims}
      → Serve.verified env found ≡ passed who
      → (c : Claims) × (who ≡ some c) × (found ≡ ok c)
  verified-passed (err e) h = cc h
  verified-passed (ok c) h = (c, cc h, refl)

  with_parts-passed :
      (m : Manager) (r : Request) (parts : Option (Bytes × Bytes)) {who : Option Claims}
      → split_two b' ' (env.get_header r.headers (codes "Authorization")) ≡ parts
      → Serve.with_parts env m parts ≡ passed who
      → (c : Claims) × (who ≡ some c) × Bearer m r c
  with_parts-passed m r none p h = cc h
  with_parts-passed m r (some (scheme, token)) p h =
      elim (Bool-cases (eq (u.to_lower scheme) (codes "bearer"))) [
        | inr e ↦ let q = (rw e at h) in cc q
        | inl e ↦
            let q = (rw e at h) in
            let (c, w, v) = verified-passed (verify env.jwt m env.now token) q in
            (
              c,
              w,
              record { scheme = scheme; token = token; header_is = p; is_bearer = e; verified = v },
            )
      ]

  authenticate-passed :
      (m : Manager) (r : Request) {who : Option Claims}
      → Serve.with_manager env r (some m) ≡ passed who
      → (c : Claims) × (who ≡ some c) × Bearer m r c
  authenticate-passed m r h =
      elim (Bool-cases (is_empty (env.get_header r.headers (codes "Authorization")))) [
        | inl e ↦ let q = (rw e at h) in cc q
        | inr e ↦ let q = (rw e at h) in with_parts-passed m r _ refl q
      ]

  -- A request sent on for a route outside of the group, or in the name of a verified user.
  pub data Allowed (m : Manager) (r : Request) (c : Call) (found : Option (Route × Bytes))
      : Type 0 where
    public_route :
        {route : Route} {id : Bytes}
        → found ≡ some (route, id)
        → is_public route ≡ true
        → Allowed m r c found
    authenticated :
        {claims : Claims} → Bearer m r claims → Names env claims.user_id c → Allowed m r c found

  guarded-Allowed :
      (s : Server) (m : Manager) (r : Request) (id : Bytes) (route : Route) (auth : Serve.Auth)
      (c : Call) (found : Option (Route × Bytes))
      → ((raw key value : Bytes) → env.query_get (env.query_set raw key value) key ≡ value)
      → Serve.with_manager env r (some m) ≡ auth
      → (guarded env s r id route auth).call ≡ some c
      → Allowed m r c found
  guarded-Allowed s m r id route (denied text) c found law a h = cc h
  guarded-Allowed s m r id route (passed who) c found law a h =
      let (claims, w, b) = authenticate-passed m r a in
      let named : is_empty claims.user_id ≡ false =
        verify-user_named env.jwt m env.now b.token claims b.verified in
      let h' : (handle_protected env s (some claims) r id route).call ≡ some c = (rw w at h) in
      authenticated b (handle_protected-Only env s (some claims) r id route law named c h')

  on_route-Allowed :
      (s : Server) (m : Manager) (r : Request) (id : Bytes) (route : Route) (c : Call)
      (found : Option (Route × Bytes))
      → ((raw key value : Bytes) → env.query_get (env.query_set raw key value) key ≡ value)
      → s.jwt_manager ≡ some m
      → found ≡ some (route, id)
      → (on_route env s r id route).call ≡ some c
      → Allowed m r c found
  unfolding on_route authenticate
  on_route-Allowed s m r id route c found law j f h = elim (Bool-cases (is_public route)) [
    | inl p ↦ public_route f p
    | inr p ↦ let q = (rw p at h) in guarded-Allowed s m r id route _ c found law (rw j refl) q
  ]

  routed-Allowed :
      (s : Server) (m : Manager) (r : Request) (c : Call) (found : Option (Route × Bytes))
      → ((raw key value : Bytes) → env.query_get (env.query_set raw key value) key ≡ value)
      → s.jwt_manager ≡ some m
      → (routed env s r found).call ≡ some c
      → Allowed m r c found
  routed-Allowed s m r c none law j h = cc h
  routed-Allowed s m r c (some (route, id)) law j h =
      on_route-Allowed s m r id route c (some (route, id)) law j refl h

  preflight-call :
      (r : Request) (next : Handled env.Opaque) {c : Call}
      → (preflight env r next).call ≡ some c
      → next.call ≡ some c
  preflight-call r next h = elim (Bool-cases (eq r.method (codes "OPTIONS"))) [
    | inl e ↦ let q = (rw e at h) in cc q
    | inr e ↦ (rw e at h)
  ]

  cors-call :
      (s : Server) (r : Request) (next : Handled env.Opaque) {c : Call}
      → (cors env s r next).call ≡ some c
      → next.call ≡ some c
  unfolding cors
  cors-call s r next h = elim (Bool-cases (is_empty (origin_of env r))) [
    | inl e ↦ preflight-call r next (rw e at h)
    | inr e ↦ elim (Bool-cases (contains s.allowed_origins (origin_of env r))) [
      | inl o ↦ let q = (rw o at (rw e at h)) in preflight-call r next q
      | inr o ↦ let q = (rw o at (rw e at h)) in cc q
    ]
  ]

  -- With a JWT manager, and a library that reads back a query parameter that it has set, whatever
  -- request the gateway sends on, for any request and any table search, either serves one of the
  -- routes outside of the protected group or is in the name of the user of a verified bearer
  -- token: every tenant ID in it is that user's, the query of a proxied one names that user, and a
  -- plugin is registered for that user only.
  pub serve-Allowed :
      (match_route : List (Bytes × Bytes × Route) → Request → Option (Route × Bytes)) (s : Server)
      (m : Manager) (r : Request) (c : Call)
      → ((raw key value : Bytes) → env.query_get (env.query_set raw key value) key ≡ value)
      → s.jwt_manager ≡ some m
      → (serve env match_route s r).call ≡ some c
      → Allowed m r c (match_route routes r)
  unfolding serve
  serve-Allowed match_route s m r c law j h =
      routed-Allowed s m r c (match_route routes r) law j (cors-call s r _ h)
