-- ===== src/Worker/Process/Safety.antt =====
-- processor.go: what reaches the Connection Manager.
use n.Base.{ap, ◌≡◌, refl, sym, ◌∙◌, Option, none, some, Bytes, codes, Unicode}
use n.Job.Backend.{
  Error, Result, ok, err, Status, pending, running, success, failed, Record, Backend,
}
use n.Job.Store
use n.Job.Store.{get, mark_failed, mark_running, mark_succeeded}
use n.Sandbox.Token.{Policy, Checked}
use n.Sandbox.Validate.{Accepted, validate_policy}
use n.Worker.Value.{Fields, delete_field, policy_from_connection}
use n.Worker.Process.{
  Job, Connection, Request, Response, Clients, Ran, Event, failed_to, fail_job, unpersisted,
  persisted, with_response, request_of, with_params, with_accepted, with_policy, with_connection,
  with_running, run_job, by_status, with_existing, body, finish, process,
}

module _ ⦃u : Unicode⦄ (b : Backend) (clients : Clients b) where
  -- A request that the sandbox has let through: its text is the accepted rewriting of the job's
  -- query, under the policy of the job's connection and for the job's tenant.
  pub record Sent (job : Job) (request : Request) : Type 0 where
    pub conn : Connection
    pub policy : Policy
    pub accepted : Accepted
    pub params : Fields
    pub connected : clients.get_connection job.connection_id job.tenant_id ≡ ok (some conn)
    pub permitted : policy_from_connection conn.params job.tenant_id ≡ ok policy
    pub validated : validate_policy job.sql policy ≡ Checked.ok accepted
    pub cleaned : clients.new_struct (delete_field (codes "query_policy") conn.params) ≡ ok params
    pub sql_is : request.sql ≡ accepted.sanitized
    pub params_are : request.params ≡ params
    pub connection_is : request.connection_id ≡ job.connection_id
    pub adapter_is : request.adapter_type ≡ conn.adapter_type

  failed_to-executed :
      (text : Bytes) (sent : Option Request) (out : Option Error × Store.Store b)
      → (failed_to b clients text sent out).executed ≡ sent
  failed_to-executed text sent (none, s) = refl
  failed_to-executed text sent (some e, s) = refl

  fail_job-executed :
      (job : Job) (text : Bytes) (sent : Option Request) (s : Store.Store b)
      → (fail_job b clients job text sent s).executed ≡ sent
  unfolding fail_job
  fail_job-executed job text sent s = failed_to-executed text sent _

  unpersisted-executed :
      (text : Bytes) (e : Error) (sent : Option Request) (out : Option Error × Store.Store b)
      → (unpersisted b clients text e sent out).executed ≡ sent
  unpersisted-executed text e sent (none, s) = refl
  unpersisted-executed text e sent (some f, s) = refl

  persisted-executed :
      (job : Job) (sent : Option Request) (out : Option Error × Store.Store b)
      → (persisted b clients job sent out).executed ≡ sent
  unfolding persisted
  persisted-executed job sent (none, s) = refl
  persisted-executed job sent (some e, s) = unpersisted-executed _ e sent _

  with_response-executed :
      (job : Job) (sent : Option Request) (s : Store.Store b) (r : Result Response)
      → (with_response b clients job sent s r).executed ≡ sent
  unfolding with_response
  with_response-executed job sent s (err e) = fail_job-executed job _ sent s
  with_response-executed job sent s (ok r) = persisted-executed job sent _

  fail_job-Sent :
      (job : Job) (text : Bytes) (s : Store.Store b) {request : Request}
      → (fail_job b clients job text none s).executed ≡ some request
      → Sent job request
  fail_job-Sent job text s h = let e = sym (fail_job-executed job text none s) ∙ h in cc e

  with_params-Sent :
      (job : Job) (conn : Connection) (policy : Policy) (a : Accepted) (s : Store.Store b)
      (found : Result Fields) {request : Request}
      → clients.get_connection job.connection_id job.tenant_id ≡ ok (some conn)
      → policy_from_connection conn.params job.tenant_id ≡ ok policy
      → validate_policy job.sql policy ≡ Checked.ok a
      → clients.new_struct (delete_field (codes "query_policy") conn.params) ≡ found
      → (with_params b clients job conn a s found).executed ≡ some request
      → Sent job request
  unfolding with_params
  with_params-Sent job conn policy a s (err e) c p v q h = fail_job-Sent job _ s h
  with_params-Sent job conn policy a s (ok params) {request} c p v q h =
      let request' = request_of b clients job conn a params in
      let sent : some request ≡ some request' =
        sym h ∙ with_response-executed job (some request') s (clients.execute_query request') in
      let e : request ≡ request' = cc sent in
      record {
        conn = conn;
        policy = policy;
        accepted = a;
        params = params;
        connected = c;
        permitted = p;
        validated = v;
        cleaned = q;
        sql_is = ap (λ r. r.sql) e;
        params_are = ap (λ r. r.params) e;
        connection_is = ap (λ r. r.connection_id) e;
        adapter_is = ap (λ r. r.adapter_type) e;
      }

  with_accepted-Sent :
      (job : Job) (conn : Connection) (policy : Policy) (s : Store.Store b)
      (found : Checked Accepted) {request : Request}
      → clients.get_connection job.connection_id job.tenant_id ≡ ok (some conn)
      → policy_from_connection conn.params job.tenant_id ≡ ok policy
      → validate_policy job.sql policy ≡ found
      → (with_accepted b clients job conn s found).executed ≡ some request
      → Sent job request
  unfolding with_accepted
  with_accepted-Sent job conn policy s (Checked.err e) c p v h = fail_job-Sent job _ s h
  with_accepted-Sent job conn policy s (Checked.ok a) c p v h =
      with_params-Sent job conn policy a s _ c p v refl h

  with_policy-Sent :
      (job : Job) (conn : Connection) (s : Store.Store b) (found : Result Policy)
      {request : Request}
      → clients.get_connection job.connection_id job.tenant_id ≡ ok (some conn)
      → policy_from_connection conn.params job.tenant_id ≡ found
      → (with_policy b clients job conn s found).executed ≡ some request
      → Sent job request
  unfolding with_policy
  with_policy-Sent job conn s (err e) c p h = fail_job-Sent job _ s h
  with_policy-Sent job conn s (ok policy) c p h = with_accepted-Sent job conn policy s _ c p refl h

  with_connection-Sent :
      (job : Job) (s : Store.Store b) (found : Result (Option Connection)) {request : Request}
      → clients.get_connection job.connection_id job.tenant_id ≡ found
      → (with_connection b clients job s found).executed ≡ some request
      → Sent job request
  unfolding with_connection
  with_connection-Sent job s (err e) c h = fail_job-Sent job _ s h
  with_connection-Sent job s (ok none) c h = fail_job-Sent job _ s h
  with_connection-Sent job s (ok (some conn)) c h = with_policy-Sent job conn s _ c refl h

  with_running-Sent :
      (job : Job) (out : Option Error × Store.Store b) {request : Request}
      → (with_running b clients job out).executed ≡ some request
      → Sent job request
  unfolding with_running
  with_running-Sent job (some e, s) h = cc
  with_running-Sent job (none, s) h = with_connection-Sent job s _ refl h

  run_job-Sent :
      (job : Job) (s : Store.Store b) {request : Request}
      → (run_job b clients job s).executed ≡ some request
      → Sent job request
  unfolding run_job
  run_job-Sent job s h = with_running-Sent job _ h

  by_status-Sent :
      (job : Job) (s : Store.Store b) (text : Bytes) (status : Status) {request : Request}
      → (by_status b clients job s text status).executed ≡ some request
      → Sent job request
  by_status-Sent job s text success h = cc
  by_status-Sent job s text failed h = cc
  by_status-Sent job s text pending h = run_job-Sent job s h
  by_status-Sent job s text running h = run_job-Sent job s h

  with_existing-Sent :
      (job : Job) (s : Store.Store b) (found : Result (Record b.Row)) {request : Request}
      → (with_existing b clients job s found).executed ≡ some request
      → Sent job request
  unfolding with_existing
  with_existing-Sent job s (err e) h = run_job-Sent job s h
  with_existing-Sent job s (ok r) h = by_status-Sent job s r.error_message r.status h

  finish-executed :
      (job : Job) (ran : Ran b clients) (send : Option (Event → Option Error))
      → (finish b clients job ran send).executed ≡ ran.executed
  unfolding finish
  finish-executed job ran none = refl
  finish-executed job ran (some send) = refl

  -- Whatever the store, a request that a worker sends to the Connection Manager carries the
  -- sandbox's rewriting of the job's query, accepted under the policy of the connection that Meta
  -- Service has for the job's tenant, and parameters without that policy.
  pub process-Sent :
      (job : Job) (s : Store.Store b) (request : Request)
      → (process b clients job s).executed ≡ some request
      → Sent job request
  unfolding process body
  process-Sent job s request h =
      with_existing-Sent job s (get b job.id s)
        (sym (finish-executed job (body b clients job s) clients.publisher) ∙ h)
