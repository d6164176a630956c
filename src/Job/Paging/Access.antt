-- ===== src/Job/Paging/Access.antt =====
-- store.go, `GetResultPage` and `GetResultPageForTenant`: who reads a page, and when it panics.
use n.Base.{ℕ, suc, ◌+◌, ◌*◌, ◌≤◌, ◌<◌, ◌≡◌, ◌≢◌, refl, ap, ◌∙◌, false, [], arith, Bytes, Signed}
use n.Job.Backend.{Error, job_not_found, Result, ok, err, Backend}
use n.Job.Store.{Job, Store, get, get_for_tenant}
use n.Job.Store.Tenant.{get_for_tenant_iff}
use n.Job.Paging.{
  errored, panicked, size_of, int32_half, int32_all, paginate, with_rows, found_page, owned_page,
  get_result_page, get_result_page_for_tenant,
}
use n.Job.Paging.Pages.{paginate-panics}

module _ (b : Backend) where
  result_page_lem :
      (id tenant : Bytes) (page size : Signed) (s : Store b)
      → get_result_page_for_tenant b id tenant page size s
        ≡ owned_page b id page size s (get_for_tenant b id tenant s)
  unfolding get_result_page_for_tenant
  result_page_lem id tenant page size s = refl

  owned_page-err :
      (id : Bytes) (page size : Signed) (s : Store b) (found : Result (Job b))
      → ((r : Job b) → found ≢ ok r)
      → ((e : Error) → found ≡ err e → e ≡ job_not_found)
      → owned_page b id page size s found ≡ errored job_not_found
  owned_page-err id page size s (ok r) n e = absurd (n r refl)
  owned_page-err id page size s (err x) n e = cc (e x refl)

  -- The tenant of a job reads its pages as `GetResultPage` gives them; to any other tenant, and for
  -- an ID under which the store finds no job, the answer is that there is no such job.
  pub page_for_tenant :
      (id tenant : Bytes) (page size : Signed) (s : Store b)
      → ((r : Job b)
          → get b id s ≡ ok r
          → r.tenant_id ≡ tenant
          → get_result_page_for_tenant b id tenant page size s ≡ get_result_page b id page size s)
        × (((r : Job b) → get b id s ≡ ok r → r.tenant_id ≢ tenant)
            → get_result_page_for_tenant b id tenant page size s ≡ errored job_not_found)
  page_for_tenant id tenant page size s =
      let (owned, refused) = get_for_tenant_iff b id tenant s in
      (
        (λ r h t. rw result_page_lem (rw ((owned r).1 (h, t)))),
        (λ n. rw result_page_lem (
            owned_page-err id page size s (get_for_tenant b id tenant s)
              (λ r h. n r ((owned r).0 h).0 ((owned r).0 h).1) refused)),
      )

  get_result_page_lem :
      (id : Bytes) (page size : Signed) (s : Store b)
      → get_result_page b id page size s ≡ found_page b page size s (get b id s)
  unfolding get_result_page
  get_result_page_lem id page size s = refl

  with_rows-inline : (s : Store b) (r : Job b) → r.result_ref ≡ [] → with_rows b s r ≡ ok r
  unfolding with_rows
  with_rows-inline s r h = rw (h, with_rows)

  size_of_lem : (size : ℕ) → 0 < size → size ≤ 1000 → size_of (false, size) ≡ size
  size_of_lem size p l = ground arith

  -- Any caller that may read a job with an inline result makes the process panic by a page number
  -- whose offset lies between 2 ^ 31 and 2 ^ 32.
  pub get_result_page-panics :
      (id : Bytes) (k size : ℕ) (s : Store b) (r : Job b)
      → get b id s ≡ ok r
      → r.result_ref ≡ []
      → 0 < size
      → size ≤ 1000
      → int32_half ≤ k * size
      → k * size < int32_all
      → get_result_page b id (false, suc k) (false, size) s ≡ panicked
  get_result_page-panics id k size s r h i p l lo hi =
      let q : paginate r.rows (suc k) size ≡ panicked =
        ap (λ n. paginate r.rows n size) {x = suc k} {y = k + 1} (omega arith)
        ∙ paginate-panics r.rows k size lo hi in
      rw get_result_page_lem (rw h (rw (with_rows-inline s r i) (rw (size_of_lem size p l) (rw q))))
