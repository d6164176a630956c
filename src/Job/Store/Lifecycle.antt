-- ===== src/Job/Store/Lifecycle.antt =====
-- store.go without Redis: each method as a change of one job, and what any calls keep.
use n.Base.{
  ℕ, ◌≡◌, refl, sym, ◌∙◌, Bool, List, [], ◌∷◌, Option, none, some, arith, if◌then◌else◌, Bytes, eq,
  eq_iff, Bool-cases, inl, inr, lookup,
}
use n.Job.Backend.{pending, running, failed, Error, Result, ok, err, Record, Backend}
use n.Job.Store
use n.Job.Store.{
  Job, Store, new_store, get, keep, new_job, created, create_context, mark_running, mark_failed,
  mark_succeeded, succeeded, succeed_with,
}
use n.Job.Store.Memory.{
  IsConsistent, SameOwner, get-keep, keep-memory, map_ok, Changes, Changes-present, Changes-missing,
  Result-cases, update-Changes,
}

abbrev pub running_job : {Row : Type 0} → ℕ → Record Row → Record Row
running_job now r = record r { status = running; error_message = []; updated_at = now }

abbrev pub failed_job : {Row : Type 0} → ℕ → Bytes → Record Row → Record Row
failed_job now text r = record r {
  status = failed;
  error_message = text;
  rows = [];
  result_ref = [];
  updated_at = now;
}

-- A call of a method that changes the store.
pub data Call (b : Backend) : Type 0 where
  create : ℕ → Job b → Call b
  run : ℕ → Bytes → Call b
  fail : ℕ → Bytes → Bytes → Call b
  succeed : ℕ → Bytes → List b.Row → Bool → Call b

module _ (b : Backend) where
  pub mark_running-Changes :
      (now : ℕ) (id : Bytes) (s : Store b)
      → s.redis ≡ none
      → Changes b id (running_job now) s (mark_running b now id s)
  unfolding mark_running
  mark_running-Changes now id s m =
      update-Changes b now id (λ r. record r { status = running; error_message = [] }) s m

  pub mark_failed-Changes :
      (now : ℕ) (id text : Bytes) (s : Store b)
      → s.redis ≡ none
      → Changes b id (failed_job now text) s (mark_failed b now id text s)
  unfolding mark_failed
  mark_failed-Changes now id text s m =
      update-Changes b now id
        (λ r. record r { status = failed; error_message = text; rows = []; result_ref = [] }) s m

  succeed-memory :
      (id : Bytes) (rows : List b.Row) (r : Job b) (s : Store b)
      → s.redis ≡ none
      → Store.succeed b id rows r s ≡ keep b id r s
  succeed-memory id rows r s m = ground arith

  pub mark_succeeded-Changes :
      (now : ℕ) (id : Bytes) (rows : List b.Row) (t : Bool) (s : Store b)
      → s.redis ≡ none
      → Changes b id (succeeded b now rows t) s (mark_succeeded b now id rows t s)
  unfolding mark_succeeded
  mark_succeeded-Changes now id rows t s m = elim (Result-cases b (get b id s)) [
    | inl (r, h) ↦
        rw (h, succeed_with)
          (rw (succeed-memory id rows (succeeded b now rows t r) s m)
            (Changes-present b id (succeeded b now rows t) s r m h))
    | inr (e, h) ↦ rw (h, succeed_with) (Changes-missing b id (succeeded b now rows t) s e m h)
  ]

  abbrev pub step : Call b → Store b → Store b
  step (create now r) s = (create_context b now r s).1
  step (run now id) s = (mark_running b now id s).1
  step (fail now id text) s = (mark_failed b now id text s).1
  step (succeed now id rows t) s = (mark_succeeded b now id rows t s).1

  unfoldable pub steps : List (Call b) → Store b → Store b
  steps [] s = s
  steps (c ∷ cs) s = steps cs (step c s)

  -- The store keeps its jobs in the process, each under its own ID and consistent.
  pub record IsGood (s : Store b) : Type 0 where
    pub memory : s.redis ≡ none
    pub consistent : (j : Bytes) (r : Job b) → get b j s ≡ ok r → IsConsistent r
    pub under_id : (j : Bytes) (r : Job b) → get b j s ≡ ok r → r.id ≡ j

  map_ok-eq-ok :
      (f : Job b → Job b) (old : Result (Job b)) {r : Job b}
      → map_ok b f old ≡ ok r
      → (r' : Job b) × (old ≡ ok r') × (f r' ≡ r)
  map_ok-eq-ok f (ok r') h = (r', refl, cc)
  map_ok-eq-ok f (err e) h = cc

  -- A change that yields consistent jobs of the same ID keeps the store good.
  Changes-IsGood :
      (id : Bytes) (f : Job b → Job b) (s : Store b) (out : Option Error × Store b)
      → ((r : Job b) → IsConsistent (f r))
      → ((r : Job b) → (f r).id ≡ r.id)
      → Changes b id f s out
      → IsGood s
      → IsGood out.1
  Changes-IsGood id f s out c k ch g = record {
    memory = ch.memory;
    consistent = λ j r h. (both j r h).0;
    under_id = λ j r h. (both j r h).1;
  }
    where
      both : (j : Bytes) (r : Job b) → get b j out.1 ≡ ok r → IsConsistent r × (r.id ≡ j)
      both j r h = elim (Bool-cases (eq id j)) [
        | inl p ↦
            let q : map_ok b f (get b j s) ≡ ok r = (rw p at (sym (ch.jobs_are j) ∙ h)) in
            let (old, e, e') = map_ok-eq-ok f (get b j s) q in
            (rw (← e') (c old), rw (← e') (k old ∙ g.under_id j old e))
        | inr p ↦
            let q : get b j s ≡ ok r = (rw p at (sym (ch.jobs_are j) ∙ h)) in
            (g.consistent j r q, g.under_id j r q)
      ]

  create_context_lem :
      (now : ℕ) (r : Job b) (s : Store b)
      → create_context b now r s ≡ created b (new_job b now r) (keep b r.id (new_job b now r) s)
  unfolding create_context
  create_context_lem now r s = refl

  created-ok : (r x : Job b) (out : Option Error × Store b) → (created b r out).0 ≡ ok x → x ≡ r
  created-ok r x (none, s) h = cc h
  created-ok r x (some e, s) h = cc h

  -- A job that has been registered, over any backend, is the given one as a new job.
  pub create_context-ok :
      (now : ℕ) (r x : Job b) (s : Store b)
      → (create_context b now r s).0 ≡ ok x
      → x ≡ new_job b now r
  create_context-ok now r x s h = created-ok (new_job b now r) x _ (rw create_context_lem at h)

  pub create_context-new_job :
      (now : ℕ) (r : Job b) (s : Store b)
      → s.redis ≡ none
      → ((create_context b now r s).0 ≡ ok (new_job b now r))
        × ((create_context b now r s).1.redis ≡ none)
        × ((j : Bytes)
            → get b j (create_context b now r s).1
              ≡ (if eq r.id j then ok (new_job b now r) else get b j s))
  create_context-new_job now r s m =
      let e = keep-memory b r.id (new_job b now r) s m in
      rw create_context_lem
        (rw e (refl, m, λ j. rw e at (get-keep b r.id j (new_job b now r) s m).2))

  -- `x` is the job `r`, pending since `now`: its ID, tenant, connection and query are those of `r`.
  pub record Registered (now : ℕ) (r x : Job b) : Type 0 where
    pub id_is : x.id ≡ r.id
    pub tenant_is : x.tenant_id ≡ r.tenant_id
    pub connection_is : x.connection_id ≡ r.connection_id
    pub sql_is : x.sql ≡ r.sql
    pub status_is : x.status ≡ pending
    pub no_message : x.error_message ≡ []
    pub created_is : x.created_at ≡ now
    pub updated_is : x.updated_at ≡ now

  -- Registering a job in the process returns it with its ID, tenant, connection and query, pending,
  -- without a message and dated now, stores what it returns under that ID, and changes no other job.
  pub create_context-get :
      (now : ℕ) (r : Job b) (s : Store b)
      → s.redis ≡ none
      → (x : Job b) × Registered now r x
        × ((create_context b now r s).0 ≡ ok x)
        × ((create_context b now r s).1.redis ≡ none)
        × ((j : Bytes)
            → get b j (create_context b now r s).1 ≡ (if eq r.id j then ok x else get b j s))
  create_context-get now r s m =
      let (done, memory, jobs_are) = create_context-new_job now r s m in
      (
        new_job b now r,
        record {
          id_is = refl;
          tenant_is = refl;
          connection_is = refl;
          sql_is = refl;
          status_is = refl;
          no_message = refl;
          created_is = refl;
          updated_is = refl;
        },
        done,
        memory,
        jobs_are,
      )

  create-IsGood :
      (now : ℕ) (r : Job b) (s : Store b) → IsGood s → IsGood (create_context b now r s).1
  create-IsGood now r s g = record {
    memory = (create_context-new_job now r s g.memory).1;
    consistent = λ j r' h. (both j r' h).0;
    under_id = λ j r' h. (both j r' h).1;
  }
    where
      both :
          (j : Bytes) (r' : Job b)
          → get b j (create_context b now r s).1 ≡ ok r'
          → IsConsistent r' × (r'.id ≡ j)
      both j r' h = elim (Bool-cases (eq r.id j)) [
        | inl p ↦
            let q : ok (new_job b now r) ≡ ok r' =
              (rw p at (sym ((create_context-new_job now r s g.memory).2 j) ∙ h)) in
            ground (arith, eq_iff r.id j)
        | inr p ↦
            let q : get b j s ≡ ok r' =
              (rw p at (sym ((create_context-new_job now r s g.memory).2 j) ∙ h)) in
            (g.consistent j r' q, g.under_id j r' q)
      ]

  step-IsGood : (c : Call b) (s : Store b) → IsGood s → IsGood (step c s)
  step-IsGood (create now r) s g = create-IsGood now r s g
  step-IsGood (run now id) s g =
      Changes-IsGood id (running_job now) s (mark_running b now id s) (λ r. ground arith)
        (λ r. refl) (mark_running-Changes now id s g.memory) g
  step-IsGood (fail now id text) s g =
      Changes-IsGood id (failed_job now text) s (mark_failed b now id text s) (λ r. ground arith)
        (λ r. refl) (mark_failed-Changes now id text s g.memory) g
  step-IsGood (succeed now id rows t) s g =
      Changes-IsGood id (succeeded b now rows t) s (mark_succeeded b now id rows t s)
        (λ r. ground arith) (λ r. refl) (mark_succeeded-Changes now id rows t s g.memory) g

  new_store-IsGood : IsGood (new_store b)
  unfolding new_store get lookup
  new_store-IsGood = record { memory = refl; consistent = λ j r h. cc; under_id = λ j r h. cc }

  steps-IsGood : (cs : List (Call b)) (s : Store b) → IsGood s → IsGood (steps cs s)
  unfolding steps
  steps-IsGood [] s g = g
  steps-IsGood (c ∷ cs) s g = steps-IsGood cs (step c s) (step-IsGood c s g)

  -- After any calls on a new store each job is stored under its own ID, a failed job has neither
  -- rows nor a reference to a result, and only a failed job has an error message.
  pub new_store-steps-IsGood : (cs : List (Call b)) → IsGood (steps cs (new_store b))
  new_store-steps-IsGood cs = steps-IsGood cs (new_store b) new_store-IsGood

  -- Every job of the first store is one of the second, with its owner.
  abbrev pub KeepsOwners : Store b → Store b → Type 0
  KeepsOwners s s' =
      (j : Bytes) (r : Job b)
      → get b j s ≡ ok r
      → (r' : Job b) × (get b j s' ≡ ok r') × SameOwner r r'

  Changes-KeepsOwners :
      (id : Bytes) (f : Job b → Job b) (s : Store b) (out : Option Error × Store b)
      → ((r : Job b) → SameOwner r (f r))
      → Changes b id f s out
      → KeepsOwners s out.1
  Changes-KeepsOwners id f s out o ch j r h = elim (Bool-cases (eq id j)) [
    | inl p ↦ (f r, rw (ch.jobs_are j) (rw p (rw h)), o r)
    | inr p ↦ (
      r,
      rw (ch.jobs_are j) (rw p h),
      record { id = refl; tenant = refl; connection = refl; sql = refl; created = refl },
    )
  ]

  -- Marking a job running, failed or succeeded leaves every job with its ID, tenant, connection,
  -- query and creation time.
  pub mark-KeepsOwners :
      (now : ℕ) (id text : Bytes) (rows : List b.Row) (t : Bool) (s : Store b)
      → s.redis ≡ none
      → KeepsOwners s (mark_running b now id s).1
        × KeepsOwners s (mark_failed b now id text s).1
        × KeepsOwners s (mark_succeeded b now id rows t s).1
  mark-KeepsOwners now id text rows t s m = (
    Changes-KeepsOwners id (running_job now) s (mark_running b now id s) (λ r. ground arith)
        (mark_running-Changes now id s m),
    Changes-KeepsOwners id (failed_job now text) s (mark_failed b now id text s) (λ r. ground arith)
        (mark_failed-Changes now id text s m),
    Changes-KeepsOwners id (succeeded b now rows t) s (mark_succeeded b now id rows t s)
        (λ r. ground arith) (mark_succeeded-Changes now id rows t s m),
  )
