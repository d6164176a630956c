-- ===== src/Platform.antt =====
-- The way of a query through the services: the gateway (services/agent-gateway), the server and the
-- workers of the Query Engine (services/query-engine) and the sandbox, from the token of a request
-- to the text that the Connection Manager runs. What carries a message is a parameter: any payload
-- that decodes to a job is allowed, in any order and over any stores.
mod Tests
use n.Base.{◌≡◌, refl, sym, ap, ◌∙◌, true, false, List, Option, none, some, Bytes, Unicode}
use n.Job.Backend.{Result, ok, Backend}
use n.Job.Store
use n.Shared.Jwt.{Claims, Manager}
use n.Gateway.Types.{Request, Call, submit_query, Environment, Server}
use n.Gateway.Serve.{Route, is_public, routes, serve}
use n.Gateway.Access.{Bearer, Allowed, public_route, authenticated, serve-Allowed}
use n.Query
use n.Query.Message.{submit_query-IsMessage}
use n.Worker.Process
use n.Worker.Process.{process}
use n.Worker.Process.Isolation.{Isolated, process-Isolated}

module _ ⦃u : Unicode⦄ (env : Environment) (b : Backend) (senders : Query.Clients b)
    (clients : Process.Clients b) where
  -- The request is on behalf of the user of a verified bearer token.
  pub record OnBehalf (m : Manager) (r : Request) (connection_id sql : Bytes)
      (request : Process.Request) : Type 0 where
    pub claims : Claims
    pub bearer : Bearer env m r claims
    pub isolated : Isolated b clients claims.user_id connection_id sql request

  Allowed-Bearer :
      (m : Manager) (r : Request) (req : Query.SubmitQueryRequest) (found : Option (Route × Bytes))
      (route : Route) (id : Bytes)
      → found ≡ some (route, id)
      → is_public route ≡ false
      → Allowed env m r (submit_query req) found
      → (claims : Claims) × Bearer env m r claims × (req.tenant_id ≡ claims.user_id)
  Allowed-Bearer m r req found route id f p (public_route {route = route'} g q) =
      let e = sym g ∙ f in
      let e' : route' ≡ route = cc e in let x : true ≡ false = sym q ∙ (ap is_public e' ∙ p) in cc x
  Allowed-Bearer m r req found route id f p (authenticated {claims} a n) = (claims, a, n)

  -- If the gateway has a JWT manager and reads back the query parameters that it sets, and jobs are
  -- decoded from what they are encoded to, then a request of a worker for a query that has come
  -- through the gateway, on a route of the protected group, and through the queue carries what the
  -- sandbox has made of the submitted text on behalf of the user of the verified bearer token: Meta
  -- Service has the connection for that user, its policy lists every table that the text names
  -- behind a FROM or JOIN that is not itself in a table reference, and if the policy names a tenant
  -- column, the request is the text, of one such table, with its own condition joined to the
  -- predicate that the column of the table is the user's own ID.
  pub serve-submit_query-process :
      (match_route : List (Bytes × Bytes × Route) → Request → Option (Route × Bytes)) (s : Server)
      (m : Manager) (r : Request) (route : Route) (id : Bytes) (req : Query.SubmitQueryRequest)
      (nuid payload : Bytes) (st t : Store.Store b) (decode : Bytes → Option Process.Job)
      (job : Process.Job) (request : Process.Request)
      → ((raw key value : Bytes) → env.query_get (env.query_set raw key value) key ≡ value)
      → ((j : Process.Job) (p : Bytes) → senders.encode j ≡ ok p → decode p ≡ some j)
      → s.jwt_manager ≡ some m
      → match_route routes r ≡ some (route, id)
      → is_public route ≡ false
      → (serve env match_route s r).call ≡ some (submit_query req)
      → (Query.submit_query b senders nuid req st).message ≡ some payload
      → decode payload ≡ some job
      → (process b clients job t).executed ≡ some request
      → OnBehalf m r req.connection_id req.sql request
  serve-submit_query-process match_route s m r route id req nuid payload st t decode job request law
        reads j f p c q d x =
      let (claims, bearer, named) =
        Allowed-Bearer m r req _ route id f p (serve-Allowed env match_route s m r _ law j c) in
      let w = submit_query-IsMessage b senders nuid req st payload q in
      let e : w.job ≡ job = let k = reads w.job payload w.encoded in cc (k, d) in
      let tenant : job.tenant_id ≡ claims.user_id =
        ap (λ y. y.tenant_id) (sym e) ∙ (w.tenant_is ∙ named) in
      let connection : job.connection_id ≡ req.connection_id =
        ap (λ y. y.connection_id) (sym e) ∙ w.connection_is in
      let text : job.sql ≡ req.sql = ap (λ y. y.sql) (sym e) ∙ w.sql_is in
      record {
        claims = claims;
        bearer = bearer;
        isolated =
            rw (← tenant)
              (rw (← connection) (rw (← text) (process-Isolated b clients job t request x)));
      }
