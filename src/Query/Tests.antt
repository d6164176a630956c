-- ===== src/Query/Tests.antt =====
-- A service with a queue that takes every message, a store with one job, and the theorems at them.
use n.Base.{
  ℕ, ◌≡◌, refl, false, [], ◌∷◌, none, some, Bytes, codes, Unicode, ascii, eq, lookup, insert,
  trim_space,
}
use n.Job.Backend.{
  job_not_found, ok, err, missing, not_fetched, pending, success, Backend, Record, Status,
}
use n.Job.Store
use n.Job.Store.{get, get_for_tenant, create_context, mark_failed, new_store}
use n.Job.Paging.{get_result_page, get_result_page_for_tenant}
use n.Query.{
  Code, answered, refused, SubmitQueryRequest, Clients, submit_query, get_job_status, JobResult,
  get_job_result,
}
use n.Query.Submit.{Fate, submit_query-Fate}
use n.Base.{◌↔◌}
use n.Query.Read.{Owned, IsHidden, get_job_status_lem, get_job_result-answered}

instance abbrev go_ascii : Unicode
go_ascii = ascii

-- Neither Redis nor the object storage is reached.
abbrev nothing : Backend
nothing = record {
  Row = ℕ;
  Redis = Unit {0};
  Objects = Unit {0};
  marshal = λ r. ok [];
  unmarshal = λ p. err job_not_found;
  marshal_rows = λ rows. ok rows;
  unmarshal_rows = λ p. ok p;
  redis_set = λ k v t r. (r, none);
  redis_get = λ k r. missing;
  put_object = λ bucket k v o. (o, none);
  get_object = λ bucket k o. not_fetched job_not_found;
}

abbrev clients : Clients nothing
clients = record {
  Struct = ℕ;
  clock = λ k. k;
  encode = λ job. ok job.id;
  publish = some (λ subject payload. none);
  new_struct = λ row. ok row;
}

abbrev request : SubmitQueryRequest
request = record { tenant_id = codes "t1"; connection_id = codes "c1"; sql = codes "SELECT 1" }

submitted :
    (submit_query nothing clients (codes "AB") request (new_store nothing)).reply
    ≡ answered (codes "job-ab", pending)
unfolding submit_query create_context new_store insert eq trim_space
submitted = refl

new_store_memory : (new_store nothing).redis ≡ none
unfolding new_store
new_store_memory = refl

submit_query-Fate_example :
    Fate nothing clients request
      (new_store nothing)
      (codes "job-ab")
      (submit_query nothing clients (codes "AB") request (new_store nothing))
      (submit_query nothing clients (codes "AB") request (new_store nothing)).reply
submit_query-Fate_example =
    submit_query-Fate nothing clients (codes "AB") request (new_store nothing) new_store_memory

abbrev job : Record ℕ
job = record {
  id = codes "j1";
  tenant_id = codes "t1";
  connection_id = codes "c1";
  sql = codes "SELECT 1";
  status = success;
  error_message = [];
  rows = 4 ∷ [];
  truncated = false;
  created_at = 0;
  updated_at = 0;
  result_ref = [];
}

abbrev store : Store.Store nothing
store = record {
  jobs = (codes "j1", job) ∷ [];
  redis = none;
  ttl = 0;
  objects = none;
  bucket = [];
  inline_max = 0;
}

get_job_status_lem_example :
    ((x : Bytes × Status × Bytes)
      → (get_job_status nothing clients (codes "j1") (codes "t1") store ≡ answered x) ↔ (
          (r : Record ℕ) × Owned nothing clients (codes "j1") (codes "t1") store r
          × (x ≡ (r.id, r.status, r.error_message))))
    × ((code : Code) (text : Bytes)
        → get_job_status nothing clients (codes "j1") (codes "t1") store ≡ refused code text
        → IsHidden nothing clients (codes "j1") (codes "t1") store code)
get_job_status_lem_example = get_job_status_lem nothing clients (codes "j1") (codes "t1") store

abbrev result : JobResult nothing clients
result = record { job_id = codes "j1"; rows = 4 ∷ []; next_page_token = none; truncated = false }

result_read :
    get_job_result nothing clients (codes "j1") (codes "t1") (false, 1) (false, 2) store
    ≡ answered result
unfolding get_job_result get_result_page_for_tenant get_result_page get_for_tenant get lookup eq
    trim_space
result_read = refl

get_job_result-answered_example :
    (r : Record ℕ) × Owned nothing clients (codes "j1") (codes "t1") store r
    × (r.status ≡ success)
    × (codes "j1" ≡ r.id)
get_job_result-answered_example =
    get_job_result-answered nothing clients (codes "j1") (codes "t1") (false, 1) (false, 2) store
      result result_read
