-- ===== src/Job/Store/Tenant.antt =====
-- store.go, `GetForTenant`: in either mode a job is shown to its tenant only.
use n.Base.{◌≡◌, ◌↔◌, refl, arith, Bytes, eq_iff}
use n.Job.Backend.{Result, ok, err, job_not_found, Error, Backend}
use n.Job.Store.{Job, Store, get, owned_by, get_for_tenant}

module _ (b : Backend) where
  owned_by_iff :
      (tenant : Bytes) (found : Result (Job b)) (r : Job b)
      → (owned_by b tenant found ≡ ok r) ↔ ((found ≡ ok r) × (r.tenant_id ≡ tenant))
  owned_by_iff tenant (ok x) r = (
    (λ h. ground (arith, eq_iff x.tenant_id tenant)),
    (λ h. ground (arith, eq_iff x.tenant_id tenant)),
  )
  owned_by_iff tenant (err e) r = ((λ h. cc), (λ h. cc))

  owned_by-err :
      (tenant : Bytes) (found : Result (Job b)) (e : Error)
      → owned_by b tenant found ≡ err e
      → e ≡ job_not_found
  owned_by-err tenant (ok x) e h = ground (arith, eq_iff x.tenant_id tenant)
  owned_by-err tenant (err x) e h = cc

  get_for_tenant_lem :
      (id tenant : Bytes) (s : Store b)
      → get_for_tenant b id tenant s ≡ owned_by b tenant (get b id s)
  unfolding get_for_tenant
  get_for_tenant_lem id tenant s = refl

  -- A tenant gets a job exactly if the store has it and it is the tenant's; any failure, of the
  -- backend or of the ownership, is the same error.
  pub get_for_tenant_iff :
      (id tenant : Bytes) (s : Store b)
      → ((r : Job b)
          → (get_for_tenant b id tenant s ≡ ok r) ↔ ((get b id s ≡ ok r) × (r.tenant_id ≡ tenant)))
        × ((e : Error) → get_for_tenant b id tenant s ≡ err e → e ≡ job_not_found)
  get_for_tenant_iff id tenant s =
      rw get_for_tenant_lem (owned_by_iff tenant (get b id s), owned_by-err tenant (get b id s))
