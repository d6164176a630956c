-- ===== src/Job/Tests.antt =====
-- A store in the process with one job, and the theorems at it.
use n.Base.{
  ℕ, ◌+◌, ◌≡◌, ◌≢◌, ◌↔◌, refl, true, false, List, [], ◌∷◌, none, some, arith, if◌then◌else◌, Bytes,
  codes, eq, length, lookup, insert,
}
use n.Job.Backend.{Error, job_not_found, ok, err, missing, not_fetched, pending, Backend}
use n.Job.Store.{
  Job, Store, new_store, new_job, get, get_for_tenant, create_context, mark_running, mark_failed,
  mark_succeeded, succeeded,
}
use n.Job.Store.Memory.{Changes}
use n.Job.Store.Lifecycle.{
  Call, create, run, fail, succeed, steps, IsGood, failed_job, mark_failed-Changes, KeepsOwners,
  create_context-get, Registered, new_store-steps-IsGood, mark-KeepsOwners, mark_succeeded-Changes,
}
use n.Job.Store.Tenant.{get_for_tenant_iff}
use n.Job.Paging.{get_result_page, get_result_page_for_tenant, panicked, errored}
use n.Job.Paging.Pages.{walk, walk-all}
use n.Job.Paging.Access.{page_for_tenant, get_result_page-panics}

-- No Redis and no object storage is reached: their answers are failures.
abbrev nothing : Backend
nothing = record {
  Row = ℕ;
  Redis = Unit {0};
  Objects = Unit {0};
  marshal = λ r. ok [];
  unmarshal = λ p. err job_not_found;
  marshal_rows = λ rows. ok rows;
  unmarshal_rows = λ p. ok p;
  redis_set = λ k v t r. (r, none);
  redis_get = λ k r. missing;
  put_object = λ bucket k v o. (o, none);
  get_object = λ bucket k o. not_fetched job_not_found;
}

abbrev job : Job nothing
job = record {
  id = codes "j1";
  tenant_id = codes "t1";
  connection_id = codes "c1";
  sql = codes "SELECT 1";
  status = pending;
  error_message = [];
  rows = [];
  truncated = false;
  created_at = 0;
  updated_at = 0;
  result_ref = [];
}

abbrev calls : List (Call nothing)
calls =
    create 5 job
    ∷ run 6 (codes "j1")
    ∷ succeed 7 (codes "j1") (10 ∷ 20 ∷ 30 ∷ []) false
    ∷ fail 8 (codes "j2") (codes "no")
    ∷ []

abbrev store : Store nothing
store = record {
  jobs = (codes "j1", succeeded nothing 7 (10 ∷ 20 ∷ 30 ∷ []) false (new_job nothing 5 job)) ∷ [];
  redis = none;
  ttl = 0;
  objects = none;
  bucket = [];
  inline_max = 0;
}

steps-calls : steps nothing calls (new_store nothing) ≡ store
unfolding steps create_context mark_running mark_succeeded mark_failed new_store lookup insert eq
steps-calls = refl

get_j1 :
    get nothing (codes "j1") store
    ≡ ok (succeeded nothing 7 (10 ∷ 20 ∷ 30 ∷ []) false (new_job nothing 5 job))
unfolding get lookup eq
get_j1 = refl

new_store-steps-IsGood_example : IsGood nothing (steps nothing calls (new_store nothing))
new_store-steps-IsGood_example = new_store-steps-IsGood nothing calls

job_failed :
    Changes nothing
      (codes "j1")
      (failed_job 9 (codes "e"))
      store
      (mark_failed nothing 9 (codes "j1") (codes "e") store)
job_failed = mark_failed-Changes nothing 9 (codes "j1") (codes "e") store refl

job_succeeded :
    Changes nothing
      (codes "j1")
      (succeeded nothing 9 (1 ∷ []) true)
      store
      (mark_succeeded nothing 9 (codes "j1") (1 ∷ []) true store)
job_succeeded = mark_succeeded-Changes nothing 9 (codes "j1") (1 ∷ []) true store refl

create_context-get_example :
    (x : Job nothing) × Registered nothing 5 job x
    × ((create_context nothing 5 job store).0 ≡ ok x)
    × ((create_context nothing 5 job store).1.redis ≡ none)
    × ((j : Bytes)
        → get nothing j (create_context nothing 5 job store).1
          ≡ (if eq job.id j then ok x else get nothing j store))
create_context-get_example = create_context-get nothing 5 job store refl

mark-KeepsOwners_example :
    KeepsOwners nothing store (mark_running nothing 9 (codes "j1") store).1
    × KeepsOwners nothing store (mark_failed nothing 9 (codes "j1") (codes "e") store).1
    × KeepsOwners nothing store (mark_succeeded nothing 9 (codes "j1") (1 ∷ []) true store).1
mark-KeepsOwners_example =
    mark-KeepsOwners nothing 9 (codes "j1") (codes "e") (1 ∷ []) true store refl

get_for_tenant_iff_example :
    ((r : Job nothing)
      → (get_for_tenant nothing (codes "j1") (codes "t2") store ≡ ok r)
        ↔ ((get nothing (codes "j1") store ≡ ok r) × (r.tenant_id ≡ codes "t2")))
    × ((e : Error)
        → get_for_tenant nothing (codes "j1") (codes "t2") store ≡ err e
        → e ≡ job_not_found)
get_for_tenant_iff_example = get_for_tenant_iff nothing (codes "j1") (codes "t2") store

page_for_tenant_example :
    ((r : Job nothing)
      → get nothing (codes "j1") store ≡ ok r
      → r.tenant_id ≡ codes "t1"
      → get_result_page_for_tenant nothing (codes "j1") (codes "t1") (false, 1) (false, 2) store
        ≡ get_result_page nothing (codes "j1") (false, 1) (false, 2) store)
    × (((r : Job nothing) → get nothing (codes "j1") store ≡ ok r → r.tenant_id ≢ codes "t1")
        → get_result_page_for_tenant nothing (codes "j1") (codes "t1") (false, 1) (false, 2) store
          ≡ errored job_not_found)
page_for_tenant_example =
    page_for_tenant nothing (codes "j1") (codes "t1") (false, 1) (false, 2) store

abbrev numbers : List ℕ
numbers = 10 ∷ 20 ∷ 30 ∷ []

walk-all_example : walk numbers 2 (length numbers + 1) 1 ≡ some numbers
walk-all_example = walk-all numbers 2 (omega arith) (omega arith)

get_result_page-panics_example :
    get_result_page nothing (codes "j1") (false, 2147485) (false, 1000) store ≡ panicked
get_result_page-panics_example =
    get_result_page-panics nothing (codes "j1") 2147484 1000 store
      (succeeded nothing 7 (10 ∷ 20 ∷ 30 ∷ []) false (new_job nothing 5 job)) get_j1 refl
      (omega arith) (omega arith) (omega arith) (omega arith)
