-- ===== src/Worker/Pool/Once.antt =====
-- worker.go: how often the query of a job is run over a sequence of messages.
use n.Base.{
  ℕ, ◌+◌, ◌≤◌, ◌≡◌, refl, false, List, [], ◌∷◌, Option, none, some, Bytes, Unicode, eq, eq_iff,
  Bool-cases, inl, inr, if◌then◌else◌, arith,
}
use n.Job.Backend.{Backend}
use n.Job.Store
use n.Worker.Process.{Job, Request, Clients, process}
use n.Worker.Process.Terminal.{Holds, IsTerminal, process-Ended, process-IsIdle}
use n.Worker.Process.Frame.{process-Frames, Frames-Holds}
use n.Worker.Pool.{with_job, handle}

-- One if the request is of that job.
abbrev pub counted : Bytes → Option Job → Option Request → ℕ
counted id (some job) (some request) = if eq job.id id then 1 else 0
counted id (some job) none = 0
counted id none request = 0

counted-none : (id : Bytes) (found : Option Job) → counted id found none ≡ 0
counted-none id none = refl
counted-none id (some job) = refl

counted-other :
    (id : Bytes) (job : Job) (sent : Option Request)
    → eq job.id id ≡ false
    → counted id (some job) sent ≡ 0
counted-other id job none n = refl
counted-other id job (some request) n = rw n refl

counted_bound : (id : Bytes) (job : Job) (sent : Option Request) → counted id (some job) sent ≤ 1
counted_bound id job none = ground arith
counted_bound id job (some request) = ground arith

module _ ⦃u : Unicode⦄ (b : Backend) (clients : Clients b) (decode : Bytes → Option Job) where
  -- How many of the requests are sent for a job, when messages are handled one after another.
  unfoldable pub requests_for : Bytes → List Bytes → Store.Store b → ℕ
  requests_for id [] s = 0
  requests_for id (payload ∷ rest) s =
      let done = handle b clients decode payload s in
      counted id (decode payload) done.executed + requests_for id rest done.store

  -- One message, when the job has ended.
  with_job-ended :
      (id : Bytes) (s : Store.Store b) (found : Option Job)
      → Holds b IsTerminal id s
      → (counted id found (with_job b clients decode s found).executed ≡ 0)
        × Holds b IsTerminal id (with_job b clients decode s found).store
  with_job-ended id s none h = (refl, h)
  with_job-ended id s (some job) h = elim (Bool-cases (eq job.id id)) [
    | inl e ↦
        let q = (eq_iff job.id id).0 e in
        let idle = process-IsIdle b clients job s (rw q h) in
        (rw idle.unsent refl, rw idle.unchanged h)
    | inr n ↦ (
      counted-other id job _ n,
      Frames-Holds b IsTerminal job.id id s _ n (process-Frames b clients job s h.memory) h,
    )
  ]

  requests_for-ended :
      (id : Bytes) (payloads : List Bytes) (s : Store.Store b)
      → Holds b IsTerminal id s
      → requests_for id payloads s ≡ 0
  unfolding requests_for handle
  requests_for-ended id [] s h = refl
  requests_for-ended id (payload ∷ rest) s h =
      let (e, k) = with_job-ended id s (decode payload) h in
      let later = requests_for-ended id rest _ k in omega (arith, e, later)

  -- One message of a job that the store has, and the messages that follow it.
  with_job_bound :
      (id : Bytes) (s : Store.Store b) (found : Option Job) (rest : List Bytes)
      → ((t : Store.Store b) → Holds b (λ k. Unit) id t → requests_for id rest t ≤ 1)
      → Holds b (λ k. Unit) id s
      → counted id found (with_job b clients decode s found).executed
          + requests_for id rest (with_job b clients decode s found).store
        ≤ 1
  with_job_bound id s none rest later h = let k = later s h in omega (arith, k)
  with_job_bound id s (some job) rest later h = elim (Bool-cases (eq job.id id)) [
    | inl e ↦
        let q = (eq_iff job.id id).0 e in
        let ended = (process-Ended b clients job s (rw q h)).ended in
        let zero_later =
          requests_for-ended id rest (process b clients job s).store (rw (← q) ended) in
        let one = counted_bound id job (process b clients job s).executed in
        omega (arith, zero_later, one)
    | inr n ↦
        let kept =
          Frames-Holds b (λ k. Unit) job.id id s _ n (process-Frames b clients job s h.memory) h in
        let k = later (process b clients job s).store kept in
        let z = counted-other id job (process b clients job s).executed n in omega (arith, k, z)
  ]

  -- Over any messages that are handled one after another, in any order and with any repetitions,
  -- at most one request is sent to the Connection Manager for a job that a store in the process has.
  pub requests_for_bound :
      (id : Bytes) (payloads : List Bytes) (s : Store.Store b)
      → Holds b (λ k. Unit) id s
      → requests_for id payloads s ≤ 1
  unfolding requests_for handle
  requests_for_bound id [] s h = ground arith
  requests_for_bound id (payload ∷ rest) s h =
      with_job_bound id s (decode payload) rest (requests_for_bound id rest) h
