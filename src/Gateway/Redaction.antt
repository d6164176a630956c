-- ===== src/Gateway/Redaction.antt =====
-- gateway.go, mcp.go: credentials never cross the public API.
use n.Base.{
  ℕ, ◌≡◌, refl, List, [], ◌∷◌, map, Option, none, some, Bytes, codes, eq, is_empty, contains,
  Bool-cases, inl, inr, Unicode, ◌==◌,
}
use n.Job.Backend.{Error, Result, ok, err}
use n.Shared.Jwt.{Claims, Manager}
use n.Worker.Value.{Fields}
use n.Gateway.Types.{
  Request, Connection, CreateConnectionRequest, RegisterPluginRequest, Proxied, Call, Replied, User,
  Body, raw, opaque, snapshot, submitted, job_status, job_result, connection, connections,
  workspaces, logged_in, agent_token, tool, Handled, Environment, Server, ToolCall,
}
use n.Gateway.Handlers
use n.Gateway.Handlers.{redact, encoded}
use n.Gateway.Mcp
use n.Gateway.Serve
use n.Gateway.Serve.{
  Route, is_public, authenticate, handle_public, handle_protected, guarded, on_route, routed,
  preflight, origin_of, cors, routes, serve,
}

abbrev HiddenIn : {O : Type 0} → Option (Connection O) → Type 0
HiddenIn none = Unit
HiddenIn (some c) = c.params ≡ none

abbrev AllHidden : {O : Type 0} → List (Option (Connection O)) → Type 0
AllHidden [] = Unit
AllHidden (c ∷ cs) = HiddenIn c × AllHidden cs

-- No connection that a body holds has parameters. What a tool answers has connections without them
-- by its type, and a proxied body is what the Meta Service has written for the user.
abbrev pub Hides : {O : Type 0} → Body O → Type 0
Hides (connection c) = HiddenIn c
Hides (connections cs page) = AllHidden cs
Hides body = Unit

module _ (env : Environment) where
  pub record Safe (h : Handled env.Opaque) : Type 0 where
    pub hidden : Hides h.response.body

  redact-HiddenIn : (c : Option (Connection env.Opaque)) → HiddenIn (redact env c)
  redact-HiddenIn none = tt
  redact-HiddenIn (some c) = refl

  map-redact-AllHidden :
      (cs : List (Option (Connection env.Opaque))) → AllHidden (map (redact env) cs)
  map-redact-AllHidden [] = tt
  map-redact-AllHidden (c ∷ cs) = (redact-HiddenIn c, map-redact-AllHidden cs)

  encoded-Safe {ℓ} :
      {A : Type ℓ} (call : Call) (status : ℕ) (body : A → Body env.Opaque) (found : Result A)
      → ((a : A) → Hides (body a))
      → Safe (encoded env call status body found)
  encoded-Safe call status body (err e) h = record { hidden = tt }
  encoded-Safe call status body (ok a) h = record { hidden = h a }

  submitted_for-Safe :
      (tenant : Bytes) (found : Option (Bytes × Bytes))
      → Safe (Handlers.submitted_for env tenant found)
  submitted_for-Safe tenant none = record { hidden = tt }
  submitted_for-Safe tenant (some (c, sql)) = encoded-Safe _ _ _ _ (λ a. tt)

  tested_with-Safe : (a : Bytes) (found : Result Fields) → Safe (Handlers.tested_with env a found)
  tested_with-Safe a (err e) = record { hidden = tt }
  tested_with-Safe a (ok params) = encoded-Safe _ _ _ _ (λ a. tt)

  tested_for-Safe : (found : Result (Bytes × Fields)) → Safe (Handlers.tested_for env found)
  tested_for-Safe (err e) = record { hidden = tt }
  tested_for-Safe (ok (a, params)) = tested_with-Safe a (env.new_struct params)

  created_for-Safe :
      (tenant : Bytes) (found : Result CreateConnectionRequest)
      → Safe (Handlers.created_for env tenant found)
  created_for-Safe tenant (err e) = record { hidden = tt }
  created_for-Safe tenant (ok body) = encoded-Safe _ _ _ _ (λ c. redact-HiddenIn c)

  got_connection-Safe :
      (call : Call) (found : Result (Option (Connection env.Opaque)))
      → Safe (Handlers.got_connection env call found)
  got_connection-Safe call (err e) = record { hidden = tt }
  got_connection-Safe call (ok none) = record { hidden = tt }
  got_connection-Safe call (ok (some c)) = record { hidden = refl }

  registered_for-Safe :
      (tenant : Bytes) (found : Result RegisterPluginRequest)
      → Safe (Handlers.registered_for env tenant found)
  registered_for-Safe tenant (err e) = record { hidden = tt }
  registered_for-Safe tenant (ok body) = encoded-Safe _ _ _ _ (λ a. tt)

  copied-Safe : (p : Proxied) (found : Result Replied) → Safe (Handlers.copied env p found)
  copied-Safe p (err e) = record { hidden = tt }
  copied-Safe p (ok reply) = record { hidden = tt }

  sent_on-Safe : (p : Proxied) (found : Option Error) → Safe (Handlers.sent_on env p found)
  sent_on-Safe p (some e) = record { hidden = tt }
  sent_on-Safe p none = copied-Safe p (env.send p)

  with_user_token-Safe :
      (p : Proxied) (user : User) (found : Result Bytes)
      → Safe (Handlers.with_user_token env p user found)
  with_user_token-Safe p user (err e) = record { hidden = tt }
  with_user_token-Safe p user (ok token) = record { hidden = tt }

  manager_token-Safe :
      (p : Proxied) (body : Bytes) (user : User) (found : Option Manager)
      → Safe (elim found [
        | none ↦ Handlers.answer env (some (n.Gateway.Types.proxied p)) 200 (raw body)
        | some m ↦ Handlers.with_user_token env p user (
            n.Shared.Jwt.generate_user_token env.jwt m env.now env.token_id user.user_id user.email)
      ])
  manager_token-Safe p body user none = record { hidden = tt }
  manager_token-Safe p body user (some m) = with_user_token-Safe p user _

  with_user-Safe :
      (s : Server) (p : Proxied) (body : Bytes) (found : Result User)
      → Safe (Handlers.with_user env s p body found)
  with_user-Safe s p body (err e) = record { hidden = tt }
  with_user-Safe s p body (ok user) = manager_token-Safe p body user s.jwt_manager

  with_login-Safe :
      (s : Server) (p : Proxied) (found : Result Replied) → Safe (Handlers.with_login env s p found)
  with_login-Safe s p (err e) = record { hidden = tt }
  with_login-Safe s p (ok reply) = elim (Bool-cases (reply.status == 200)) [
    | inl e ↦ rw e (with_user-Safe s p reply.body (env.decode_user reply.body))
    | inr e ↦ rw e (record { hidden = tt })
  ]

  login_checked-Safe :
      (s : Server) (p : Proxied) (found : Option Error)
      → Safe (Handlers.login_checked env s p found)
  login_checked-Safe s p (some e) = record { hidden = tt }
  login_checked-Safe s p none = with_login-Safe s p (env.send p)

  with_agent_token-Safe :
      (id : Bytes) (found : Result Bytes) → Safe (Handlers.with_agent_token env id found)
  with_agent_token-Safe id (err e) = record { hidden = tt }
  with_agent_token-Safe id (ok token) = record { hidden = tt }

  agent_manager-Safe :
      (id user : Bytes) (found : Option Manager)
      → Safe (elim found [
        | none ↦ Handlers.http_error env none 500 (codes "jwt not configured")
        | some m ↦
            Handlers.with_agent_token env id
              (n.Shared.Jwt.generate_agent_token env.jwt m env.now env.token_id id user)
      ])
  agent_manager-Safe id user none = record { hidden = tt }
  agent_manager-Safe id user (some m) = with_agent_token-Safe id _

  agent_token-Safe :
      (s : Server) (who : Option Claims) (id : Bytes)
      → Safe (Handlers.handle_generate_agent_token env s who id)
  unfolding Handlers.handle_generate_agent_token
  agent_token-Safe s who id = elim (Bool-cases (is_empty (Handlers.get_user_id who))) [
    | inl e ↦ rw e (record { hidden = tt })
    | inr e ↦ rw e (agent_manager-Safe id (Handlers.get_user_id who) s.jwt_manager)
  ]

  read-Safe : (tenant : Bytes) (found : Option ToolCall) → Safe (Mcp.read env tenant found)
  read-Safe tenant none = record { hidden = tt }
  read-Safe tenant (some t) = record { hidden = tt }

  proxy-Safe :
      (s : Server) (who : Option Claims) (r : Request)
      → Safe (Handlers.proxy_to_meta_http env s who r)
  unfolding Handlers.proxy_to_meta_http
  proxy-Safe s who r = sent_on-Safe _ _

module _ ⦃u : Unicode⦄ (env : Environment) where
  handle_public-Safe :
      (s : Server) (r : Request) (id : Bytes) (route : Route)
      → Safe env (handle_public env s r id route)
  unfolding Handlers.handle_login
  handle_public-Safe s r id Route.register = proxy-Safe env s none r
  handle_public-Safe s r id Route.login = login_checked-Safe env s _ _
  handle_public-Safe s r id Route.health = record { hidden = tt }
  handle_public-Safe s r id Route.mcp = record { hidden = tt }
  handle_public-Safe s r id Route.me = record { hidden = tt }
  handle_public-Safe s r id Route.agents = record { hidden = tt }
  handle_public-Safe s r id Route.new_agent = record { hidden = tt }
  handle_public-Safe s r id Route.agent_token_route = record { hidden = tt }
  handle_public-Safe s r id Route.schema = record { hidden = tt }
  handle_public-Safe s r id Route.query = record { hidden = tt }
  handle_public-Safe s r id Route.query_status = record { hidden = tt }
  handle_public-Safe s r id Route.query_result = record { hidden = tt }
  handle_public-Safe s r id Route.test_connection_route = record { hidden = tt }
  handle_public-Safe s r id Route.new_connection = record { hidden = tt }
  handle_public-Safe s r id Route.all_connections = record { hidden = tt }
  handle_public-Safe s r id Route.one_connection = record { hidden = tt }
  handle_public-Safe s r id Route.drop_connection = record { hidden = tt }
  handle_public-Safe s r id Route.register_plugin_route = record { hidden = tt }
  handle_public-Safe s r id Route.all_workspaces = record { hidden = tt }

  handle_protected-Safe :
      (s : Server) (who : Option Claims) (r : Request) (id : Bytes) (route : Route)
      → Safe env (handle_protected env s who r id route)
  unfolding Handlers.handle_submit_query Handlers.handle_get_job_status
      Handlers.handle_get_job_result Handlers.handle_test_connection
      Handlers.handle_create_connection Handlers.handle_list_connections
      Handlers.handle_get_connection Handlers.handle_delete_connection
      Handlers.handle_register_plugin Handlers.handle_list_workspaces Handlers.handle_get_schema
      Mcp.handle_mcp
  handle_protected-Safe s who r id Route.mcp = read-Safe env _ (env.read_tool r)
  handle_protected-Safe s who r id Route.me = proxy-Safe env s who r
  handle_protected-Safe s who r id Route.agents = proxy-Safe env s who r
  handle_protected-Safe s who r id Route.new_agent = proxy-Safe env s who r
  handle_protected-Safe s who r id Route.agent_token_route = agent_token-Safe env s who id
  handle_protected-Safe s who r id Route.schema = encoded-Safe env _ _ _ _ (λ a. tt)
  handle_protected-Safe s who r id Route.query = submitted_for-Safe env _ _
  handle_protected-Safe s who r id Route.query_status = encoded-Safe env _ _ _ _ (λ a. tt)
  handle_protected-Safe s who r id Route.query_result = encoded-Safe env _ _ _ _ (λ a. tt)
  handle_protected-Safe s who r id Route.test_connection_route = tested_for-Safe env _
  handle_protected-Safe s who r id Route.new_connection = created_for-Safe env _ _
  handle_protected-Safe s who r id Route.all_connections =
      encoded-Safe env _ _ _ _ (λ found. map-redact-AllHidden env found.0)
  handle_protected-Safe s who r id Route.one_connection = got_connection-Safe env _ _
  handle_protected-Safe s who r id Route.drop_connection = encoded-Safe env _ _ _ _ (λ a. tt)
  handle_protected-Safe s who r id Route.register_plugin_route = registered_for-Safe env _ _
  handle_protected-Safe s who r id Route.all_workspaces = encoded-Safe env _ _ _ _ (λ a. tt)
  handle_protected-Safe s who r id Route.health = record { hidden = tt }
  handle_protected-Safe s who r id Route.register = record { hidden = tt }
  handle_protected-Safe s who r id Route.login = record { hidden = tt }

  guarded-Safe :
      (s : Server) (r : Request) (id : Bytes) (route : Route) (auth : Serve.Auth)
      → Safe env (guarded env s r id route auth)
  guarded-Safe s r id route (Serve.denied text) = record { hidden = tt }
  guarded-Safe s r id route (Serve.passed who) = handle_protected-Safe s who r id route

  routed-Safe :
      (s : Server) (r : Request) (found : Option (Route × Bytes)) → Safe env (routed env s r found)
  unfolding on_route
  routed-Safe s r none = record { hidden = tt }
  routed-Safe s r (some (route, id)) = elim (Bool-cases (is_public route)) [
    | inl p ↦ rw (p, on_route) (handle_public-Safe s r id route)
    | inr p ↦ rw (p, on_route) (guarded-Safe s r id route (authenticate env s r))
  ]

  preflight-Safe :
      (r : Request) (next : Handled env.Opaque) → Safe env next → Safe env (preflight env r next)
  preflight-Safe r next h = elim (Bool-cases (eq r.method (codes "OPTIONS"))) [
    | inl e ↦ rw e (record { hidden = tt })
    | inr e ↦ rw e h
  ]

  cors-Safe :
      (s : Server) (r : Request) (next : Handled env.Opaque)
      → Safe env next
      → Safe env (cors env s r next)
  unfolding cors
  cors-Safe s r next h = elim (Bool-cases (is_empty (origin_of env r))) [
    | inl e ↦ rw e (record { hidden = (preflight-Safe r next h).hidden })
    | inr e ↦ elim (Bool-cases (contains s.allowed_origins (origin_of env r))) [
      | inl o ↦ rw e (rw o (record { hidden = (preflight-Safe r next h).hidden }))
      | inr o ↦ rw e (rw o (record { hidden = tt }))
    ]
  ]

  -- Whatever the request and whatever connections the services answer with, a response in which the
  -- gateway encodes a connection or a list of them has none with its parameters; of a body that the
  -- gateway copies as it is, a proxied one, it says nothing.
  pub serve-Safe :
      (match_route : List (Bytes × Bytes × Route) → Request → Option (Route × Bytes)) (s : Server)
      (r : Request)
      → Safe env (serve env match_route s r)
  unfolding serve
  serve-Safe match_route s r = cors-Safe s r _ (routed-Safe s r (match_route routes r))
