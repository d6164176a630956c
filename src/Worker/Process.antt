-- ===== src/Worker/Process.antt =====
-- processor.go: `Process` and `failJob`, with `Publish` of pkg/shared/audit/audit.go. The clients
-- of the processor are the parameter `Clients`. A run returns its error with the store, the
-- request that has gone to the Connection Manager, and the audit event given to the publisher.
pub mod Safety
pub mod Terminal
pub mod Frame
pub mod Isolation
use n.Base.{
  ℕ, zero, suc, Bool, true, false, List, [], ◌∷◌, ◌++◌, Option, none, some, Bytes, codes, is_empty,
  trim_space, Unicode, Dict, insert, map, if◌then◌else◌,
}
use n.Job.Backend.{
  Status, pending, running, success, failed, Error, message, error_text, wrap, Result, ok, err,
  Record, Backend,
}
use n.Job.Store
use n.Job.Store.{get, mark_running, mark_failed, mark_succeeded}
use n.Sandbox.Token.{Policy, Checked, reason_text}
use n.Sandbox.Validate.{Accepted, validate_policy}
use n.Worker.Value.{Value, Fields, delete_field, policy_from_connection}

pub record Job : Type 0 where
  pub id : Bytes
  pub tenant_id : Bytes
  pub connection_id : Bytes
  pub sql : Bytes

pub record Connection : Type 0 where
  pub adapter_type : Bytes
  pub params : Fields

-- `ExecuteQueryRequest`, whose limit is 0 and whose timeout is 60 seconds.
pub record Request : Type 0 where
  pub connection_id : Bytes
  pub sql : Bytes
  pub limit : ℕ
  pub timeout_seconds : ℕ
  pub adapter_type : Bytes
  pub params : Fields

pub record Response : Type 0 where
  pub columns : List Bytes
  pub rows : List (List Value)
  pub truncated : Bool

-- `audit.Event`; the metadata are the connection and the duration.
pub record Event : Type 0 where
  pub id : Bytes
  pub tenant_id : Bytes
  pub actor_id : Bytes
  pub action : Bytes
  pub resource_type : Bytes
  pub resource_id : Bytes
  pub success : Bool
  pub error_message : Bytes
  pub connection_id : Bytes

-- `clock n` is what `time.Now` reads at the n-th change of the store, `event_id` is the UUID of a
-- name, `quoted` is `%q`, `publisher` is nil or what it answers, `to_row` reads a map as a row.
pub record Clients (b : Backend) : Type 0 where
  pub clock : ℕ → ℕ
  pub quoted : Bytes → Bytes
  pub event_id : Bytes → Bytes
  pub get_connection : Bytes → Bytes → Result (Option Connection)
  pub new_struct : Fields → Result Fields
  pub execute_query : Request → Result Response
  pub to_row : Dict (Option Value) → b.Row
  pub publisher : Option (Event → Option Error)

-- One row as a map: a column without a value is nil.
unfoldable pub make_row : List Bytes → List Value → Dict (Option Value) → Dict (Option Value)
make_row [] values row = row
make_row (c ∷ columns) [] row = make_row columns [] (insert c none row)
make_row (c ∷ columns) (v ∷ values) row = make_row columns values (insert c (some v) row)

module _ ⦃u : Unicode⦄ (b : Backend) (clients : Clients b) where
  -- What the body of `Process` leaves to the deferred audit.
  pub record Ran : Type 0 where
    pub error : Option Error
    pub audit_success : Bool
    pub audit_error : Bytes
    pub store : Store.Store b
    pub executed : Option Request

  abbrev pub failed_to : Bytes → Option Request → Option Error × Store.Store b → Ran
  failed_to text sent (none, s) = record {
    error = none;
    audit_success = false;
    audit_error = text;
    store = s;
    executed = sent;
  }
  failed_to text sent (some e, s) = record {
    error = some (wrap (codes "mark job failed") e);
    audit_success = false;
    audit_error = text;
    store = s;
    executed = sent;
  }

  -- `auditError = text; return p.failJob(job.ID, text)`.
  unfoldable pub fail_job : Job → Bytes → Option Request → Store.Store b → Ran
  fail_job job text sent s = failed_to text sent (mark_failed b (clients.clock 1) job.id text s)

  abbrev pub unpersisted : Bytes → Error → Option Request → Option Error × Store.Store b → Ran
  unpersisted text e sent (none, s) = record {
    error = some (wrap (codes "mark job success") e);
    audit_success = false;
    audit_error = text;
    store = s;
    executed = sent;
  }
  unpersisted text e sent (some f, s) = record {
    error = some (wrap (codes "persist result: " ++ (text ++ codes "; mark job failed")) f);
    audit_success = false;
    audit_error = text;
    store = s;
    executed = sent;
  }

  -- Behind `MarkSucceeded`.
  unfoldable pub persisted : Job → Option Request → Option Error × Store.Store b → Ran
  persisted job sent (none, s) = record {
    error = none;
    audit_success = true;
    audit_error = [];
    store = s;
    executed = sent;
  }
  persisted job sent (some e, s) =
      unpersisted (error_text e) e sent
        (mark_failed b (clients.clock 2) job.id (codes "result persistence: " ++ error_text e) s)

  -- Behind `ExecuteQuery`.
  unfoldable pub with_response : Job → Option Request → Store.Store b → Result Response → Ran
  with_response job sent s (err e) = fail_job job (codes "execute query: " ++ error_text e) sent s
  with_response job sent s (ok r) = persisted job sent (
      mark_succeeded b (clients.clock 1) job.id
        (map (λ values. clients.to_row (make_row r.columns values [])) r.rows) r.truncated s)

  abbrev pub request_of : Job → Connection → Accepted → Fields → Request
  request_of job conn a params = record {
    connection_id = job.connection_id;
    sql = a.sanitized;
    limit = 0;
    timeout_seconds = 60;
    adapter_type = conn.adapter_type;
    params = params;
  }

  -- Behind `structpb.NewStruct`.
  unfoldable pub with_params : Job → Connection → Accepted → Store.Store b → Result Fields → Ran
  with_params job conn a s (err e) =
      fail_job job (codes "sanitize connection params: " ++ error_text e) none s
  with_params job conn a s (ok params) =
      let request = request_of job conn a params in
      with_response job (some request) s (clients.execute_query request)

  -- Behind `ValidatePolicy`.
  unfoldable pub with_accepted : Job → Connection → Store.Store b → Checked Accepted → Ran
  with_accepted job conn s (Checked.err reason) =
      fail_job job (codes "sandbox rejection: " ++ reason_text clients.quoted reason) none s
  with_accepted job conn s (Checked.ok a) =
      with_params job conn a s
        (clients.new_struct (delete_field (codes "query_policy") conn.params))

  -- Behind `policyFromConnection`.
  unfoldable pub with_policy : Job → Connection → Store.Store b → Result Policy → Ran
  with_policy job conn s (err e) =
      fail_job job (codes "invalid query policy: " ++ error_text e) none s
  with_policy job conn s (ok policy) = with_accepted job conn s (validate_policy job.sql policy)

  -- Behind `GetConnection`.
  unfoldable pub with_connection : Job → Store.Store b → Result (Option Connection) → Ran
  with_connection job s (err e) = fail_job job (codes "get connection: " ++ error_text e) none s
  with_connection job s (ok none) = fail_job job (codes "connection not found") none s
  with_connection job s (ok (some conn)) =
      with_policy job conn s (policy_from_connection conn.params job.tenant_id)

  -- Behind `MarkRunning`.
  unfoldable pub with_running : Job → Option Error × Store.Store b → Ran
  with_running job (some e, s) = record {
    error = some (wrap (codes "mark job running") e);
    audit_success = false;
    audit_error = error_text e;
    store = s;
    executed = none;
  }
  with_running job (none, s) =
      with_connection job s (clients.get_connection job.connection_id job.tenant_id)

  unfoldable pub run_job : Job → Store.Store b → Ran
  run_job job s = with_running job (mark_running b (clients.clock 0) job.id s)

  abbrev pub by_status : Job → Store.Store b → Bytes → Status → Ran
  by_status job s text success = record {
    error = none;
    audit_success = true;
    audit_error = [];
    store = s;
    executed = none;
  }
  by_status job s text failed = record {
    error = none;
    audit_success = false;
    audit_error = text;
    store = s;
    executed = none;
  }
  by_status job s text pending = run_job job s
  by_status job s text running = run_job job s

  -- Behind the first `Get`: a job that has ended is not run again.
  unfoldable pub with_existing : Job → Store.Store b → Result (Record b.Row) → Ran
  with_existing job s (err e) = run_job job s
  with_existing job s (ok r) = by_status job s r.error_message r.status

  unfoldable pub body : Job → Store.Store b → Ran
  body job s = with_existing job s (get b job.id s)

  unfoldable pub event_of : Job → Ran → Event
  event_of job ran = record {
    id = clients.event_id (codes "n0/query-job/" ++ job.id);
    tenant_id = job.tenant_id;
    actor_id = job.tenant_id;
    action = codes "query.execute";
    resource_type = codes "query_job";
    resource_id = job.id;
    success = ran.audit_success;
    error_message = ran.audit_error;
    connection_id = job.connection_id;
  }

  abbrev pub published : Option Error → Option Error
  published none = none
  published (some e) = some (wrap (codes "publish audit event") e)

  -- `audit.Publish`; the event is `none` where the publisher was not called.
  unfoldable pub publish : (Event → Option Error) → Event → Option Error × Option Event
  publish send event =
      if is_empty (trim_space event.tenant_id)
      then (some (message (codes "audit tenant_id is required")), none)
      else (published (send event), some event)

  pub record Processed : Type 0 where
    pub error : Option Error
    pub store : Store.Store b
    pub executed : Option Request
    pub audited : Option Event

  abbrev pub audit_failure : Option Error → Option Error → Option Error
  audit_failure none (some e) = some (wrap (codes "publish durable audit event") e)
  audit_failure error audit = error

  abbrev pub audited : Ran → Option Error × Option Event → Processed
  audited ran (error, event) = record {
    error = audit_failure ran.error error;
    store = ran.store;
    executed = ran.executed;
    audited = event;
  }

  -- The deferred function of `Process`.
  unfoldable pub finish : Job → Ran → Option (Event → Option Error) → Processed
  finish job ran none = record {
    error = ran.error;
    store = ran.store;
    executed = ran.executed;
    audited = none;
  }
  finish job ran (some send) = audited ran (publish send (event_of job ran))

  -- `Process`.
  unfoldable pub process : Job → Store.Store b → Processed
  process job s = finish job (body job s) clients.publisher
