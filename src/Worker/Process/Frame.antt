-- ===== src/Worker/Process/Frame.antt =====
-- processor.go on a store in the process: a run changes no other job than its own.
use n.Base.{◌≡◌, refl, ◌∙◌, false, Option, none, some, Bytes, codes, ◌++◌, Unicode, eq}
use n.Job.Backend.{
  Error, Result, ok, err, Status, pending, running, success, failed, Record, Backend, error_text,
}
use n.Job.Store
use n.Job.Store.{get, mark_failed, mark_running, mark_succeeded}
use n.Job.Store.Memory.{Changes}
use n.Job.Store.Lifecycle.{mark_running-Changes, mark_failed-Changes, mark_succeeded-Changes}
use n.Sandbox.Token.{Policy, Checked}
use n.Sandbox.Validate.{Accepted}
use n.Worker.Value.{Fields}
use n.Worker.Process.{
  Job, Connection, Request, Response, Event, Clients, Ran, failed_to, fail_job, unpersisted,
  persisted, with_response, with_params, with_accepted, with_policy, with_connection, with_running,
  run_job, by_status, with_existing, body, finish, process,
}
use n.Worker.Process.Terminal.{Holds}

module _ (b : Backend) where
  -- The second store keeps its jobs in the process, and has the other jobs of the first.
  pub record Frames (id : Bytes) (s s' : Store.Store b) : Type 0 where
    pub memory : s'.redis ≡ none
    pub others : (j : Bytes) → eq id j ≡ false → get b j s' ≡ get b j s

  Frames-refl : (id : Bytes) (s : Store.Store b) → s.redis ≡ none → Frames id s s
  Frames-refl id s m = record { memory = m; others = λ j n. refl }

  Frames-trans :
      (id : Bytes) (s t v : Store.Store b) → Frames id s t → Frames id t v → Frames id s v
  Frames-trans id s t v f g = record {
    memory = g.memory;
    others = λ j n. g.others j n ∙ f.others j n;
  }

  Changes-Frames :
      (id : Bytes) (f : Record b.Row → Record b.Row) (s : Store.Store b)
      (out : Option Error × Store.Store b)
      → Changes b id f s out
      → Frames id s out.1
  Changes-Frames id f s out c = record {
    memory = c.memory;
    others = λ j n. c.jobs_are j ∙ rw n refl;
  }

  -- What holds of another job still holds of it.
  pub Frames-Holds :
      (P : Status → Type 0) (id j : Bytes) (s s' : Store.Store b)
      → eq id j ≡ false
      → Frames id s s'
      → Holds b P j s
      → Holds b P j s'
  Frames-Holds P id j s s' n f h = record {
    memory = f.memory;
    job = h.job;
    present = f.others j n ∙ h.present;
    status_is = h.status_is;
  }

module _ ⦃u : Unicode⦄ (b : Backend) (clients : Clients b) where
  failed_to-store :
      (text : Bytes) (sent : Option Request) (out : Option Error × Store.Store b)
      → (failed_to b clients text sent out).store ≡ out.1
  failed_to-store text sent (none, s) = refl
  failed_to-store text sent (some e, s) = refl

  fail_job-Frames :
      (job : Job) (text : Bytes) (sent : Option Request) (s : Store.Store b)
      → s.redis ≡ none
      → Frames b job.id s (fail_job b clients job text sent s).store
  unfolding fail_job
  fail_job-Frames job text sent s m =
      rw (failed_to-store text sent (mark_failed b (clients.clock 1) job.id text s))
        (Changes-Frames b job.id _ s _ (mark_failed-Changes b (clients.clock 1) job.id text s m))

  unpersisted-store :
      (text : Bytes) (e : Error) (sent : Option Request) (out : Option Error × Store.Store b)
      → (unpersisted b clients text e sent out).store ≡ out.1
  unpersisted-store text e sent (none, s) = refl
  unpersisted-store text e sent (some f, s) = refl

  persisted-Frames :
      (job : Job) (sent : Option Request) (s : Store.Store b) (out : Option Error × Store.Store b)
      → Frames b job.id s out.1
      → Frames b job.id s (persisted b clients job sent out).store
  unfolding persisted
  persisted-Frames job sent s (none, t) f = f
  persisted-Frames job sent s (some e, t) f =
      let text = codes "result persistence: " ++ error_text e in
      rw (unpersisted-store (error_text e) e sent (mark_failed b (clients.clock 2) job.id text t)) (
        Frames-trans b job.id s t _ f (
          Changes-Frames b job.id _ t _
            (mark_failed-Changes b (clients.clock 2) job.id text t f.memory)))

  with_response-Frames :
      (job : Job) (sent : Option Request) (s : Store.Store b) (r : Result Response)
      → s.redis ≡ none
      → Frames b job.id s (with_response b clients job sent s r).store
  unfolding with_response
  with_response-Frames job sent s (err e) m = fail_job-Frames job _ sent s m
  with_response-Frames job sent s (ok r) m = persisted-Frames job sent s _ (
      Changes-Frames b job.id _ s _
        (mark_succeeded-Changes b (clients.clock 1) job.id _ r.truncated s m))

  with_params-Frames :
      (job : Job) (conn : Connection) (a : Accepted) (s : Store.Store b) (r : Result Fields)
      → s.redis ≡ none
      → Frames b job.id s (with_params b clients job conn a s r).store
  unfolding with_params
  with_params-Frames job conn a s (err e) m = fail_job-Frames job _ none s m
  with_params-Frames job conn a s (ok params) m = with_response-Frames job _ s _ m

  with_accepted-Frames :
      (job : Job) (conn : Connection) (s : Store.Store b) (r : Checked Accepted)
      → s.redis ≡ none
      → Frames b job.id s (with_accepted b clients job conn s r).store
  unfolding with_accepted
  with_accepted-Frames job conn s (Checked.err e) m = fail_job-Frames job _ none s m
  with_accepted-Frames job conn s (Checked.ok a) m = with_params-Frames job conn a s _ m

  with_policy-Frames :
      (job : Job) (conn : Connection) (s : Store.Store b) (r : Result Policy)
      → s.redis ≡ none
      → Frames b job.id s (with_policy b clients job conn s r).store
  unfolding with_policy
  with_policy-Frames job conn s (err e) m = fail_job-Frames job _ none s m
  with_policy-Frames job conn s (ok policy) m = with_accepted-Frames job conn s _ m

  with_connection-Frames :
      (job : Job) (s : Store.Store b) (r : Result (Option Connection))
      → s.redis ≡ none
      → Frames b job.id s (with_connection b clients job s r).store
  unfolding with_connection
  with_connection-Frames job s (err e) m = fail_job-Frames job _ none s m
  with_connection-Frames job s (ok none) m = fail_job-Frames job _ none s m
  with_connection-Frames job s (ok (some conn)) m = with_policy-Frames job conn s _ m

  with_running-Frames :
      (job : Job) (s : Store.Store b) (out : Option Error × Store.Store b)
      → Frames b job.id s out.1
      → Frames b job.id s (with_running b clients job out).store
  unfolding with_running
  with_running-Frames job s (some e, t) f = f
  with_running-Frames job s (none, t) f =
      Frames-trans b job.id s t _ f (with_connection-Frames job t _ f.memory)

  run_job-Frames :
      (job : Job) (s : Store.Store b)
      → s.redis ≡ none
      → Frames b job.id s (run_job b clients job s).store
  unfolding run_job
  run_job-Frames job s m =
      with_running-Frames job s _
        (Changes-Frames b job.id _ s _ (mark_running-Changes b (clients.clock 0) job.id s m))

  by_status-Frames :
      (job : Job) (s : Store.Store b) (text : Bytes) (status : Status)
      → s.redis ≡ none
      → Frames b job.id s (by_status b clients job s text status).store
  by_status-Frames job s text success m = Frames-refl b job.id s m
  by_status-Frames job s text failed m = Frames-refl b job.id s m
  by_status-Frames job s text pending m = run_job-Frames job s m
  by_status-Frames job s text running m = run_job-Frames job s m

  with_existing-Frames :
      (job : Job) (s : Store.Store b) (r : Result (Record b.Row))
      → s.redis ≡ none
      → Frames b job.id s (with_existing b clients job s r).store
  unfolding with_existing
  with_existing-Frames job s (err e) m = run_job-Frames job s m
  with_existing-Frames job s (ok r) m = by_status-Frames job s _ r.status m

  finish-store :
      (job : Job) (ran : Ran b clients) (send : Option (Event → Option Error))
      → (finish b clients job ran send).store ≡ ran.store
  unfolding finish
  finish-store job ran none = refl
  finish-store job ran (some send) = refl

  -- Processing a job, on a store in the process, changes no other job.
  pub process-Frames :
      (job : Job) (s : Store.Store b)
      → s.redis ≡ none
      → Frames b job.id s (process b clients job s).store
  unfolding process body
  process-Frames job s m =
      rw (finish-store job (body b clients job s) clients.publisher)
        (with_existing-Frames job s (get b job.id s) m)
