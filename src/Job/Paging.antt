-- ===== src/Job/Paging.antt =====
-- store.go: `GetResultPage` and `GetResultPageForTenant`. A page number and a page size are int32;
-- `(true, m)` is -m. `start` is computed in int32, so it wraps at 2 ^ 31, and a slice with a
-- negative bound panics.
pub mod Pages
pub mod Access
pub mod Source
use n.Base.{
  ℕ, zero, suc, ◌+◌, ◌-◌, ◌*◌, ◌%◌, Bool, true, false, List, [], ◌∷◌, Option, none, some, ltb, leb,
  ◌==◌, if◌then◌else◌, Bytes, codes, length, slice, is_empty, Signed,
}
use n.Job.Backend.{
  Error, job_not_found, message, wrap, Result, ok, err, Record, Fetch, fetched, not_fetched,
  not_read, Backend,
}
use n.Job.Store.{Job, Store, get, get_for_tenant}

-- What a call of the method ends in.
pub data Outcome (A : Type 0) : Type 0 where
  returned : A → Outcome A
  errored : Error → Outcome A
  panicked : Outcome A

abbrev pub page_of : Signed → ℕ
page_of (true, m) = 1
page_of (false, zero) = 1
page_of (false, suc m) = suc m

abbrev pub size_of : Signed → ℕ
size_of (true, m) = 100
size_of (false, zero) = 100
size_of (false, suc m) = if ltb 1000 (suc m) then 1000 else suc m

abbrev pub int32_half : ℕ
int32_half = 2147483648

abbrev pub int32_all : ℕ
int32_all = 4294967296

-- `fmt.Sprintf("%d", page+1)`, as the number that it prints.
abbrev pub next_page : ℕ → Signed
next_page page = if page + 1 == int32_half then (true, int32_half) else (false, page + 1)

module _ {Row : Type 0} where
  -- From `start` on, which is not negative.
  page_from : List Row → ℕ → ℕ → ℕ → List Row × Option Signed
  page_from rows page size start =
      let end = if ltb (length rows) (start + size) then length rows else start + size in
      if leb (length rows) start
      then ([], none)
      else (slice rows start end, if ltb end (length rows) then some (next_page page) else none)

  -- The rows of a page and the token of the next one.
  pub paginate : List Row → ℕ → ℕ → Outcome (List Row × Option Signed)
  unfolding page_from
  paginate rows page size =
      let start = (page - 1) * size % int32_all in
      if ltb start int32_half then returned (page_from rows page size start) else panicked

module _ (b : Backend) where
  abbrev decoded_rows : Job b → Result (List b.Row) → Result (Job b)
  decoded_rows r (ok rows) = ok (record r { rows = rows })
  decoded_rows r (err e) = err (wrap (codes "decode object result") e)

  abbrev fetched_rows : Job b → Fetch → Result (Job b)
  fetched_rows r (fetched payload) = decoded_rows r (b.unmarshal_rows payload)
  fetched_rows r (not_fetched e) = err (wrap (codes "get object result") e)
  fetched_rows r (not_read e) = err (wrap (codes "read object result") e)

  -- The rows of a result that was moved to the object storage.
  pub with_rows : Store b → Job b → Result (Job b)
  with_rows s r = if is_empty r.result_ref then ok r else elim s.objects [
    | none ↦ err (message (codes "object result backend unavailable"))
    | some objects ↦ fetched_rows r (b.get_object s.bucket r.result_ref objects)
  ]

  abbrev pub Page : Type 0
  Page = Job b × List b.Row × Option Signed

  abbrev pub with_page : Job b → Outcome (List b.Row × Option Signed) → Outcome Page
  with_page r (returned (rows, next)) = returned (r, rows, next)
  with_page r (errored e) = errored e
  with_page r panicked = panicked

  abbrev pub paged : Signed → Signed → Result (Job b) → Outcome Page
  paged page size (err e) = errored e
  paged page size (ok r) = with_page r (paginate r.rows (page_of page) (size_of size))

  abbrev pub found_page : Signed → Signed → Store b → Result (Job b) → Outcome Page
  found_page page size s (err e) = errored e
  found_page page size s (ok r) = paged page size (with_rows s r)

  -- `GetResultPage`.
  unfoldable pub get_result_page : Bytes → Signed → Signed → Store b → Outcome Page
  unfolding with_rows paginate get
  get_result_page id page size s = found_page page size s (get b id s)

  abbrev pub owned_page : Bytes → Signed → Signed → Store b → Result (Job b) → Outcome Page
  owned_page id page size s (err e) = errored e
  owned_page id page size s (ok r) = get_result_page id page size s

  -- `GetResultPageForTenant`.
  unfoldable pub get_result_page_for_tenant :
      Bytes → Bytes → Signed → Signed → Store b → Outcome Page
  unfolding get_result_page get_for_tenant
  get_result_page_for_tenant id tenant page size s =
      owned_page id page size s (get_for_tenant b id tenant s)
