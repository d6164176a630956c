-- ===== src/Job/Paging/Source.antt =====
-- store.go, `GetResultPage`: the job that a page is of.
use n.Base.{
  ◌≡◌, refl, sym, codes, ap, Bool, true, false, List, Option, none, some, Bytes, Signed, is_empty,
  if◌then◌else◌,
}
use n.Job.Backend.{Result, ok, err, Record, Fetch, fetched, not_fetched, not_read, Backend, message}
use n.Job.Store.{Job, Store, get, get_for_tenant}
use n.Job.Store.Tenant.{get_for_tenant_iff}
use n.Job.Paging.{
  Outcome, returned, errored, panicked, decoded_rows, fetched_rows, with_rows, with_page, paged,
  found_page, owned_page, get_result_page, get_result_page_for_tenant, Page,
}

-- The record of a page is the stored one but for its rows.
pub record SameJob {Row : Type 0} (r r' : Record Row) : Type 0 where
  pub id : r'.id ≡ r.id
  pub tenant : r'.tenant_id ≡ r.tenant_id
  pub status : r'.status ≡ r.status

module _ (b : Backend) where
  decoded_rows-SameJob :
      (r : Job b) (found : Result (List b.Row)) {r' : Job b}
      → decoded_rows b r found ≡ ok r'
      → SameJob r r'
  decoded_rows-SameJob r (err e) h = cc h
  decoded_rows-SameJob r (ok rows) {r'} h =
      let e : r' ≡ record r { rows = rows } = cc h in
      record {
        id = ap (λ k. k.id) e;
        tenant = ap (λ k. k.tenant_id) e;
        status = ap (λ k. k.status) e;
      }

  fetched_rows-SameJob :
      (r : Job b) (found : Fetch) {r' : Job b} → fetched_rows b r found ≡ ok r' → SameJob r r'
  fetched_rows-SameJob r (fetched payload) h = decoded_rows-SameJob r (b.unmarshal_rows payload) h
  fetched_rows-SameJob r (not_fetched e) h = cc h
  fetched_rows-SameJob r (not_read e) h = cc h

  rows_of-SameJob :
      (s : Store b) (r : Job b) (c : Bool) (objects : Option b.Objects) {r' : Job b}
      → (if c then ok r else elim objects [
        | none ↦ err (message (codes "object result backend unavailable"))
        | some o ↦ fetched_rows b r (b.get_object s.bucket r.result_ref o)
      ])
        ≡ ok r'
      → SameJob r r'
  rows_of-SameJob s r true objects {r'} h =
      let e : r' ≡ r = cc h in
      record {
        id = ap (λ k. k.id) e;
        tenant = ap (λ k. k.tenant_id) e;
        status = ap (λ k. k.status) e;
      }
  rows_of-SameJob s r false none h = cc h
  rows_of-SameJob s r false (some o) h = fetched_rows-SameJob r _ h

  with_page-job :
      (r : Job b) (o : Outcome (List b.Row × Option Signed)) {p : Page b}
      → with_page b r o ≡ returned p
      → p.0 ≡ r
  with_page-job r (returned (rows, next)) {p} h =
      let e : p ≡ (r, rows, next) = cc h in ap (λ q. q.0) e
  with_page-job r (errored e) h = cc h
  with_page-job r panicked h = cc h

  paged-job :
      (page size : Signed) (found : Result (Job b)) {p : Page b}
      → paged b page size found ≡ returned p
      → found ≡ ok p.0
  paged-job page size (err e) h = cc h
  paged-job page size (ok r) h = ap ok (sym (with_page-job r _ h))

  with_rows-SameJob : (s : Store b) (r r' : Job b) → with_rows b s r ≡ ok r' → SameJob r r'
  unfolding with_rows
  with_rows-SameJob s r r' h = rows_of-SameJob s r (is_empty r.result_ref) s.objects h

  found_page-job :
      (page size : Signed) (s : Store b) (found : Result (Job b)) {p : Page b}
      → found_page b page size s found ≡ returned p
      → (r : Job b) × (found ≡ ok r) × SameJob r p.0
  found_page-job page size s (err e) h = cc h
  found_page-job page size s (ok r) {p} h =
      (r, refl, with_rows-SameJob s r p.0 (paged-job page size (with_rows b s r) h))

  get_result_page-job :
      (id : Bytes) (page size : Signed) (s : Store b) {p : Page b}
      → get_result_page b id page size s ≡ returned p
      → (r : Job b) × (get b id s ≡ ok r) × SameJob r p.0
  unfolding get_result_page
  get_result_page-job id page size s h = found_page-job page size s (get b id s) h

  owned_page-job :
      (id : Bytes) (page size : Signed) (s : Store b) (found : Result (Job b)) {p : Page b}
      → owned_page b id page size s found ≡ returned p
      → ((r : Job b) × (found ≡ ok r)) × (get_result_page b id page size s ≡ returned p)
  owned_page-job id page size s (err e) h = cc h
  owned_page-job id page size s (ok r) h = ((r, refl), h)

  pub page_for_tenant-job :
      (id tenant : Bytes) (page size : Signed) (s : Store b) {p : Page b}
      → get_result_page_for_tenant b id tenant page size s ≡ returned p
      → (r : Job b) × (get b id s ≡ ok r) × (r.tenant_id ≡ tenant) × SameJob r p.0
  unfolding get_result_page_for_tenant
  page_for_tenant-job id tenant page size s h =
      let ((r, found), h') = owned_page-job id page size s (get_for_tenant b id tenant s) h in
      let (present, owned) = ((get_for_tenant_iff b id tenant s).0 r).0 found in
      let (r', present', same) = get_result_page-job id page size s h' in
      let e : r' ≡ r = cc in (r, present, owned, rw (← e) same)
