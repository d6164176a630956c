-- ===== src/Worker/Pool.antt =====
-- worker.go: what a worker of the pool does with the messages that it fetches, one after another.
-- `decode` is `json.Unmarshal` into a `Job`. That a worker waits, stops or logs is left out.
pub mod Once
use n.Base.{◌≡◌, refl, ◌↔◌, Option, none, some, Bytes, Unicode}
use n.Job.Backend.{Error, Backend}
use n.Job.Store
use n.Worker.Process.{Job, Request, Clients, Processed, process}
use n.Worker.Process.Terminal.{Holds, process-process}

-- `TermWithReason`, `NakWithDelay` and `Ack`.
pub data Answer : Type 0 where
  terminated retried acknowledged : Answer

module _ ⦃u : Unicode⦄ (b : Backend) (clients : Clients b) (decode : Bytes → Option Job) where
  pub record Handled : Type 0 where
    pub answer : Answer
    pub store : Store.Store b
    pub executed : Option Request

  abbrev pub answer_of : Option Error → Answer
  answer_of none = acknowledged
  answer_of (some e) = retried

  abbrev pub answered : Processed b clients → Handled
  answered done = record {
    answer = answer_of done.error;
    store = done.store;
    executed = done.executed;
  }

  abbrev pub with_job : Store.Store b → Option Job → Handled
  with_job s none = record { answer = terminated; store = s; executed = none }
  with_job s (some job) = answered (process b clients job s)

  -- The body of the loop over the messages.
  unfoldable pub handle : Bytes → Store.Store b → Handled
  handle payload s = with_job s (decode payload)

  answer_of_iff : (error : Option Error) → (answer_of error ≡ acknowledged) ↔ (error ≡ none)
  answer_of_iff none = (λ h. refl, λ h. refl)
  answer_of_iff (some e) = (λ h. cc, λ h. cc)

  with_job_iff :
      (s : Store.Store b) (found : Option Job)
      → ((with_job s found).answer ≡ acknowledged)
        ↔ ((job : Job) × (found ≡ some job) × ((process b clients job s).error ≡ none))
  with_job_iff s none = (λ h. cc, λ (job, e, h). cc)
  with_job_iff s (some job) = (
    λ h. (job, refl, (answer_of_iff _).0 h),
    λ (job', e, h). let e' : job' ≡ job = cc e in (answer_of_iff _).1 (rw (← e') h),
  )

  -- A message is acknowledged exactly if its payload is a job and the processor reports no error.
  pub handle_iff :
      (payload : Bytes) (s : Store.Store b)
      → ((handle payload s).answer ≡ acknowledged)
        ↔ ((job : Job) × (decode payload ≡ some job) × ((process b clients job s).error ≡ none))
  unfolding handle
  handle_iff payload s = with_job_iff s (decode payload)

  pub handle-job :
      (payload : Bytes) (s : Store.Store b) (job : Job)
      → decode payload ≡ some job
      → handle payload s ≡ answered (process b clients job s)
  unfolding handle
  handle-job payload s job h = rw (h, with_job) refl

  -- A message whose job a store in the process has and that is delivered again, for want of an
  -- acknowledgement or after an error, does not make the Connection Manager run the query again,
  -- and the store stays as the first delivery has left it.
  pub handle-handle :
      (payload : Bytes) (s : Store.Store b) (job : Job)
      → decode payload ≡ some job
      → Holds b (λ k. Unit) job.id s
      → ((handle payload (handle payload s).store).executed ≡ none)
        × ((handle payload (handle payload s).store).store ≡ (handle payload s).store)
  handle-handle payload s job d h =
      let idle = process-process b clients job s h in
      rw (handle-job payload s job d) (
        rw (handle-job payload (process b clients job s).store job d) (idle.unsent, idle.unchanged))
