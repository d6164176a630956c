-- ===== src/Query.antt =====
-- services/query-engine/internal/server/grpc.go: the service that agents submit their queries to
-- and read their jobs from. NUID, JSON, structpb and the queue are the parameter `Clients`.
pub mod Submit
pub mod Message
pub mod Read
mod Tests
use n.Base.{
  ℕ, Bool, List, [], ◌∷◌, ◌++◌, Option, none, some, Bytes, codes, is_empty, trim_space, Unicode,
  ◌||◌, if◌then◌else◌, false,
}
use n.Job.Backend.{
  Status, pending, running, success, failed, Error, job_not_found, error_text, Result, ok, err,
  Record, Backend,
}
use n.Job.Store
use n.Job.Store.{get_for_tenant, create_context, mark_failed}
use n.Job.Paging.{Outcome, returned, errored, panicked, get_result_page_for_tenant, Page}
use n.Base.{Signed}
use n.Worker.Process

-- The codes of the package `codes` of gRPC that the service answers with.
pub data Code : Type 0 where
  invalid_argument failed_precondition unavailable internal not_found : Code

-- What a call of the service ends in; `crashed` is a panic.
pub data Reply (A : Type 0) : Type 0 where
  answered : A → Reply A
  refused : Code → Bytes → Reply A
  crashed : Reply A

pub record SubmitQueryRequest : Type 0 where
  pub tenant_id : Bytes
  pub connection_id : Bytes
  pub sql : Bytes

-- `publish` is nil or what the queue answers to a subject and a payload.
pub record Clients (b : Backend) : Type 1 where
  pub Struct : Type 0
  pub clock : ℕ → ℕ
  pub encode : Process.Job → Result Bytes
  pub publish : Option (Bytes → Bytes → Option Error)
  pub new_struct : b.Row → Result Struct

abbrev pub query_subject : Bytes
query_subject = codes "QUERIES.jobs"

abbrev pub is_blank : Bytes → Bool
is_blank s = is_empty (trim_space s)

abbrev pub status_text : Status → Bytes
status_text pending = codes "pending"
status_text running = codes "running"
status_text success = codes "success"
status_text failed = codes "failed"

module _ (b : Backend) (clients : Clients b) where
  -- `message` is what has been given to the queue.
  pub record Submitted : Type 0 where
    pub reply : Reply (Bytes × Status)
    pub store : Store.Store b
    pub message : Option Bytes

  abbrev pub refuse : Code → Bytes → Option Bytes → Store.Store b → Submitted
  refuse code text sent s = record { reply = refused code text; store = s; message = sent }

  -- The record that `SubmitQuery` hands to the store.
  abbrev pub request_record : Bytes → SubmitQueryRequest → Record b.Row
  request_record id req = record {
    id = id;
    tenant_id = req.tenant_id;
    connection_id = req.connection_id;
    sql = req.sql;
    status = pending;
    error_message = [];
    rows = [];
    truncated = false;
    created_at = 0;
    updated_at = 0;
    result_ref = [];
  }

  abbrev pub job_of : Record b.Row → Process.Job
  job_of r = record {
    id = r.id;
    tenant_id = r.tenant_id;
    connection_id = r.connection_id;
    sql = r.sql;
  }

  -- Behind `Publish`.
  pub with_published : Record b.Row → Bytes → Store.Store b → Option Error → Submitted
  with_published r payload s none = record {
    reply = answered (r.id, r.status);
    store = s;
    message = some payload;
  }
  with_published r payload s (some e) =
      refuse unavailable (codes "publish job: " ++ error_text e) (some payload)
        (mark_failed b (clients.clock 1) r.id (codes "publish job: " ++ error_text e) s).1

  -- Behind `json.Marshal`.
  pub with_payload :
      (Bytes → Bytes → Option Error) → Record b.Row → Store.Store b → Result Bytes → Submitted
  with_payload publish r s (err e) =
      refuse internal (codes "marshal job payload: " ++ error_text e) none
        (mark_failed b (clients.clock 1) r.id (codes "marshal job payload: " ++ error_text e) s).1
  with_payload publish r s (ok payload) = with_published r payload s (publish query_subject payload)

  -- Behind `CreateContext`.
  pub with_created :
      (Bytes → Bytes → Option Error) → Result (Record b.Row) × Store.Store b → Submitted
  with_created publish (err e, s) =
      refuse unavailable (codes "persist job: " ++ error_text e) none s
  with_created publish (ok r, s) = with_payload publish r s (clients.encode (job_of r))

  abbrev pub with_publisher :
      Bytes → SubmitQueryRequest → Store.Store b → Option (Bytes → Bytes → Option Error) → Submitted
  with_publisher id req s none =
      refuse failed_precondition (codes "query publisher is not configured") none s
  with_publisher id req s (some publish) =
      with_created publish (create_context b (clients.clock 0) (request_record id req) s)

  module _ ⦃u : Unicode⦄ where
    -- `SubmitQuery`, for the next NUID.
    unfoldable pub submit_query : Bytes → SubmitQueryRequest → Store.Store b → Submitted
    unfolding with_created with_payload with_published
    submit_query nuid req s =
        if is_blank req.connection_id
        then refuse invalid_argument (codes "connection_id is required") none s
        else if is_blank req.sql
        then refuse invalid_argument (codes "sql is required") none s
        else with_publisher (codes "job-" ++ u.to_lower nuid) req s clients.publish

  abbrev pub status_reply : Result (Record b.Row) → Reply (Bytes × Status × Bytes)
  status_reply (ok r) = answered (r.id, r.status, r.error_message)
  status_reply (err job_not_found) = refused not_found (codes "job not found")
  status_reply (err e) = refused internal (codes "get job status: " ++ error_text e)

  -- `GetJobStatus`.
  unfoldable pub get_job_status : Bytes → Bytes → Store.Store b → Reply (Bytes × Status × Bytes)
  get_job_status id tenant s =
      if is_blank id || is_blank tenant
      then refused invalid_argument (codes "job_id and tenant_id are required")
      else status_reply (get_for_tenant b id tenant s)

  pub record JobResult : Type 0 where
    pub job_id : Bytes
    pub rows : List clients.Struct
    pub next_page_token : Option Signed
    pub truncated : Bool

  abbrev cons_struct :
      Result clients.Struct → Result (List clients.Struct) → Result (List clients.Struct)
  cons_struct (err e) rest = err e
  cons_struct (ok x) (err e) = err e
  cons_struct (ok x) (ok xs) = ok (x ∷ xs)

  -- The loop over the rows stops at the first that fails.
  pub structs : List b.Row → Result (List clients.Struct)
  structs [] = ok []
  structs (row ∷ rows) = cons_struct (clients.new_struct row) (structs rows)

  abbrev pub with_structs :
      Record b.Row → Option Signed → Result (List clients.Struct) → Reply JobResult
  with_structs r next (err e) = refused internal (codes "marshal job row: " ++ error_text e)
  with_structs r next (ok rows) =
      answered
        record { job_id = r.id; rows = rows; next_page_token = next; truncated = r.truncated }

  abbrev pub by_result_status : Record b.Row → List b.Row → Option Signed → Status → Reply JobResult
  by_result_status r rows next success = with_structs r next (structs rows)
  by_result_status r rows next status =
      refused failed_precondition (codes "job status is " ++ status_text status)

  abbrev pub result_reply : Outcome (Page b) → Reply JobResult
  result_reply panicked = crashed
  result_reply (errored job_not_found) = refused not_found (codes "job not found")
  result_reply (errored e) = refused internal (codes "get job result: " ++ error_text e)
  result_reply (returned (r, rows, next)) = by_result_status r rows next r.status

  -- `GetJobResult`.
  unfoldable pub get_job_result : Bytes → Bytes → Signed → Signed → Store.Store b → Reply JobResult
  unfolding structs
  get_job_result id tenant page size s =
      if is_blank id || is_blank tenant
      then refused invalid_argument (codes "job_id and tenant_id are required")
      else result_reply (get_result_page_for_tenant b id tenant page size s)
