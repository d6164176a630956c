-- ===== src/Query/Read.antt =====
-- grpc.go: `GetJobStatus` and `GetJobResult` show a job to its tenant only.
use n.Base.{
  ◌≡◌, ◌≢◌, ◌⊎◌, ◌↔◌, Bool, inl, inr, refl, sym, ap, ◌∙◌, true, false, ◌||◌, List, Option, Bytes,
  Bool-cases, Signed,
}
use n.Job.Backend.{
  Status, pending, running, success, failed, Error, job_not_found, message, Result, ok, err, Record,
  Backend,
}
use n.Job.Store
use n.Job.Store.{get, get_for_tenant}
use n.Job.Store.Tenant.{get_for_tenant_iff}
use n.Job.Paging.{Outcome, returned, errored, panicked, Page, get_result_page_for_tenant}
use n.Job.Paging.Source.{page_for_tenant-job}
use n.Query.{
  Code, invalid_argument, not_found, Reply, answered, refused, Clients, is_blank, status_reply,
  get_job_status, JobResult, structs, with_structs, by_result_status, result_reply, get_job_result,
}

module _ (b : Backend) (clients : Clients b) where
  -- A job that the store has under an ID and that is the tenant's.
  pub record Owned (id tenant : Bytes) (s : Store.Store b) (r : Record b.Row) : Type 0 where
    pub named : is_blank id ≡ false
    pub tenant_named : is_blank tenant ≡ false
    pub present : get b id s ≡ ok r
    pub tenant_is : r.tenant_id ≡ tenant

  -- Why `GetJobStatus` refuses: a name is missing, the store does not find the job, or the job is
  -- of another tenant.
  pub data IsHidden (id tenant : Bytes) (s : Store.Store b) : Code → Type 0 where
    bad_request :
        is_blank id ≡ true ⊎ is_blank tenant ≡ true → IsHidden id tenant s invalid_argument
    absent :
        {e : Error}
        → is_blank id ≡ false
        → is_blank tenant ≡ false
        → get b id s ≡ err e
        → IsHidden id tenant s not_found
    not_theirs :
        {r : Record b.Row}
        → is_blank id ≡ false
        → is_blank tenant ≡ false
        → get b id s ≡ ok r
        → r.tenant_id ≢ tenant
        → IsHidden id tenant s not_found

  status_reply-answered :
      (found : Result (Record b.Row)) {x : Bytes × Status × Bytes}
      → status_reply b clients found ≡ answered x
      → (r : Record b.Row) × (found ≡ ok r) × (x ≡ (r.id, r.status, r.error_message))
  status_reply-answered (ok r) h = (r, refl, cc h)
  status_reply-answered (err job_not_found) h = cc h
  status_reply-answered (err (message m)) h = cc h

  status_reply-not_found :
      (found : Result (Record b.Row)) {code : Code} {text : Bytes}
      → ((e : Error) → found ≡ err e → e ≡ job_not_found)
      → status_reply b clients found ≡ refused code text
      → (not_found ≡ code) × (found ≡ err job_not_found)
  status_reply-not_found (ok r) e h = cc h
  status_reply-not_found (err job_not_found) e h = (cc h, refl)
  status_reply-not_found (err (message m)) e h = let c = e (message m) refl in cc c

  -- A job that is not shown is not found, or is another tenant's.
  IsHidden-get :
      (id tenant : Bytes) (s : Store.Store b) (found : Result (Record b.Row))
      → is_blank id ≡ false
      → is_blank tenant ≡ false
      → get b id s ≡ found
      → get_for_tenant b id tenant s ≡ err job_not_found
      → IsHidden id tenant s not_found
  IsHidden-get id tenant s (err e) n t f h = absent n t f
  IsHidden-get id tenant s (ok r) n t f h = not_theirs n t f (λ o.
      let q = ((get_for_tenant_iff b id tenant s).0 r).1 (f, o) in
      let c : err job_not_found ≡ ok r = sym h ∙ q in cc c)

  blank_cases : (x y : Bool) → (x || y) ≡ true → x ≡ true ⊎ y ≡ true
  blank_cases true y h = inl refl
  blank_cases false y h = inr h

  nonblank :
      (id tenant : Bytes)
      → (is_blank id || is_blank tenant) ≡ false
      → (is_blank id ≡ false) × (is_blank tenant ≡ false)
  nonblank id tenant h = elim (Bool-cases (is_blank id)) [
    | inl p ↦ let q : true ≡ false = (rw p at h) in cc q
    | inr p ↦ (p, rw p at h)
  ]

  get_job_status-answered :
      (id tenant : Bytes) (s : Store.Store b) (x : Bytes × Status × Bytes)
      → get_job_status b clients id tenant s ≡ answered x
      → (r : Record b.Row) × Owned id tenant s r × (x ≡ (r.id, r.status, r.error_message))
  unfolding get_job_status
  get_job_status-answered id tenant s x h = elim (Bool-cases (is_blank id || is_blank tenant)) [
    | inl p ↦ let q = (rw p at h) in cc q
    | inr p ↦
        let q = (rw p at h) in
        let (r, found, e) = status_reply-answered (get_for_tenant b id tenant s) q in
        let (present, owned) = ((get_for_tenant_iff b id tenant s).0 r).0 found in
        let (named, tenant_named) = nonblank id tenant p in
        (
          r,
          record {
            named = named;
            tenant_named = tenant_named;
            present = present;
            tenant_is = owned;
          },
          e,
        )
  ]

  get_job_status-refused :
      (id tenant : Bytes) (s : Store.Store b) (code : Code) (text : Bytes)
      → get_job_status b clients id tenant s ≡ refused code text
      → IsHidden id tenant s code
  unfolding get_job_status
  get_job_status-refused id tenant s code text h =
      elim (Bool-cases (is_blank id || is_blank tenant)) [
        | inl p ↦
            let q = (rw p at h) in
            let c : invalid_argument ≡ code = cc q in rw (← c) (bad_request (blank_cases _ _ p))
        | inr p ↦
            let q = (rw p at h) in
            let (named, tenant_named) = nonblank id tenant p in
            let (c, f) =
              status_reply-not_found (get_for_tenant b id tenant s)
                (get_for_tenant_iff b id tenant s).1 q in
            rw (← c) (IsHidden-get id tenant s _ named tenant_named refl f)
      ]

  Owned-answered :
      (id tenant : Bytes) (s : Store.Store b) (r : Record b.Row)
      → Owned id tenant s r
      → get_job_status b clients id tenant s ≡ answered (r.id, r.status, r.error_message)
  unfolding get_job_status
  Owned-answered id tenant s r o =
      let q = ((get_for_tenant_iff b id tenant s).0 r).1 (o.present, o.tenant_is) in
      rw o.named (rw o.tenant_named (rw q refl))

  -- `GetJobStatus` answers exactly with the ID, the status and the message of a job that the store
  -- finds under the ID and that is the tenant's, neither name blank; its refusal is InvalidArgument
  -- only where a name is blank, and else NotFound, only where the store does not find the job, for
  -- whatever reason, or the job is another tenant's.
  pub get_job_status_lem :
      (id tenant : Bytes) (s : Store.Store b)
      → ((x : Bytes × Status × Bytes)
          → (get_job_status b clients id tenant s ≡ answered x)
            ↔ ((r : Record b.Row) × Owned id tenant s r × (x ≡ (r.id, r.status, r.error_message))))
        × ((code : Code) (text : Bytes)
            → get_job_status b clients id tenant s ≡ refused code text
            → IsHidden id tenant s code)
  get_job_status_lem id tenant s = (
    (λ x. (
      get_job_status-answered id tenant s x,
      (λ (r, o, e). rw e (Owned-answered id tenant s r o)),
    )),
    get_job_status-refused id tenant s,
  )

  by_result_status-answered :
      (r : Record b.Row) (rows : List b.Row) (next : Option Signed) (status : Status)
      {x : JobResult b clients}
      → by_result_status b clients r rows next status ≡ answered x
      → (status ≡ success) × (with_structs b clients r next (structs b clients rows) ≡ answered x)
  by_result_status-answered r rows next success h = (refl, h)
  by_result_status-answered r rows next pending h = cc h
  by_result_status-answered r rows next running h = cc h
  by_result_status-answered r rows next failed h = cc h

  with_structs-answered :
      (r : Record b.Row) (next : Option Signed) (found : Result (List clients.Struct))
      {x : JobResult b clients}
      → with_structs b clients r next found ≡ answered x
      → x.job_id ≡ r.id
  with_structs-answered r next (err e) h = cc h
  with_structs-answered r next (ok rows) {x} h = reply-id h
    where
      id_of : Reply (JobResult b clients) → Bytes
      id_of (answered y) = y.job_id
      id_of _ = r.id

      reply-id : {y : JobResult b clients} → answered y ≡ answered x → x.job_id ≡ y.job_id
      reply-id e = sym (ap id_of e)

  result_reply-answered :
      (o : Outcome (Page b)) {x : JobResult b clients}
      → result_reply b clients o ≡ answered x
      → (p : Page b) × (o ≡ returned p) × (p.0.status ≡ success) × (x.job_id ≡ p.0.id)
  result_reply-answered panicked h = cc h
  result_reply-answered (errored job_not_found) h = cc h
  result_reply-answered (errored (message m)) h = cc h
  result_reply-answered (returned (r, rows, next)) h =
      let (k, h') = by_result_status-answered r rows next r.status h in
      ((r, rows, next), refl, k, with_structs-answered r next (structs b clients rows) h')

  -- `GetJobResult` answers for a job only that the store has, that is the tenant's and that has
  -- succeeded, and names that job.
  pub get_job_result-answered :
      (id tenant : Bytes) (page size : Signed) (s : Store.Store b) (x : JobResult b clients)
      → get_job_result b clients id tenant page size s ≡ answered x
      → (r : Record b.Row) × Owned id tenant s r × (r.status ≡ success) × (x.job_id ≡ r.id)
  unfolding get_job_result
  get_job_result-answered id tenant page size s x h =
      elim (Bool-cases (is_blank id || is_blank tenant)) [
        | inl p ↦ let q = (rw p at h) in cc q
        | inr p ↦
            let q = (rw p at h) in
            let (pg, found, k, e) =
              result_reply-answered (get_result_page_for_tenant b id tenant page size s) q in
            let (r, present, owned, same) = page_for_tenant-job b id tenant page size s found in
            let (named, tenant_named) = nonblank id tenant p in
            (
              r,
              record {
                named = named;
                tenant_named = tenant_named;
                present = present;
                tenant_is = owned;
              },
              sym same.status ∙ k,
              e ∙ same.id,
            )
      ]
