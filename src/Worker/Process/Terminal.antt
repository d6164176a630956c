-- ===== src/Worker/Process/Terminal.antt =====
-- processor.go on a store in the process: a run ends its job, and a job that has ended is not run.
use n.Base.{
  ◌≡◌, refl, sym, ap, ◌∙◌, Bool, true, false, Option, none, some, Bytes, Unicode, ◌⊎◌, inl, inr,
  eq_refl, is_empty, trim_space, Bool-cases,
}
use n.Job.Backend.{
  Error, Result, ok, err, Status, pending, running, success, failed, Record, Backend,
}
use n.Job.Store
use n.Job.Store.{get, mark_failed, mark_running, mark_succeeded}
use n.Job.Store.Memory.{Changes, map_ok, error_of}
use n.Job.Store.Lifecycle.{mark_running-Changes, mark_failed-Changes, mark_succeeded-Changes}
use n.Sandbox.Token.{Policy, Checked}
use n.Sandbox.Validate.{Accepted}
use n.Worker.Value.{Fields}
use n.Worker.Process.{
  Job, Connection, Request, Response, Event, Clients, Ran, failed_to, fail_job, persisted,
  with_response, with_params, with_accepted, with_policy, with_connection, with_running, run_job,
  by_status, with_existing, body, finish, process, publish, event_of, Processed,
}

abbrev pub is_success : Status → Bool
is_success success = true
is_success _ = false

abbrev pub IsTerminal : Status → Type 0
IsTerminal status = (status ≡ success) ⊎ (status ≡ failed)

module _ (b : Backend) where
  -- The store keeps its jobs in the process and has the job, with a status as told.
  pub record Holds (P : Status → Type 0) (id : Bytes) (s : Store.Store b) : Type 0 where
    pub memory : s.redis ≡ none
    pub job : Record b.Row
    pub present : get b id s ≡ ok job
    pub status_is : P job.status

  abbrev Anything : Status → Type 0
  Anything status = Unit

  Changes-Holds :
      (P : Status → Type 0) (id : Bytes) (f : Record b.Row → Record b.Row) (s : Store.Store b)
      (out : Option Error × Store.Store b)
      → ((r : Record b.Row) → P (f r).status)
      → Changes b id f s out
      → Holds Anything id s
      → (out.0 ≡ none) × Holds P id out.1
  Changes-Holds P id f s out p c h = (
    c.reported ∙ ap (error_of b) h.present,
    record {
      memory = c.memory;
      job = f h.job;
      present = c.jobs_are id ∙ rw (eq_refl id) (ap (map_ok b f) h.present);
      status_is = p h.job;
    },
  )

module _ ⦃u : Unicode⦄ (b : Backend) (clients : Clients b) where
  -- The run reports no error, its job has ended, and the audit says how.
  record Ends (job : Job) (ran : Ran b clients) : Type 0 where
    no_error : ran.error ≡ none
    ended : Holds b IsTerminal job.id ran.store
    told : ran.audit_success ≡ is_success ended.job.status

  failed_to-Ends :
      (job : Job) (text : Bytes) (sent : Option Request) (out : Option Error × Store.Store b)
      → out.0 ≡ none
      → Holds b (λ k. k ≡ failed) job.id out.1
      → Ends job (failed_to b clients text sent out)
  failed_to-Ends job text sent (some e, s) n h = cc
  failed_to-Ends job text sent (none, s) n h = record {
    no_error = refl;
    ended = record {
      memory = h.memory;
      job = h.job;
      present = h.present;
      status_is = inr h.status_is;
    };
    told = sym (ap is_success h.status_is);
  }

  fail_job-Ends :
      (job : Job) (text : Bytes) (sent : Option Request) (s : Store.Store b)
      → Holds b (λ k. Unit) job.id s
      → Ends job (fail_job b clients job text sent s)
  unfolding fail_job
  fail_job-Ends job text sent s h =
      let (n, f) =
        Changes-Holds b (λ k. k ≡ failed) job.id _ s _ (λ r. refl)
          (mark_failed-Changes b (clients.clock 1) job.id text s h.memory) h in
      failed_to-Ends job text sent _ n f

  persisted-Ends :
      (job : Job) (sent : Option Request) (out : Option Error × Store.Store b)
      → out.0 ≡ none
      → Holds b (λ k. k ≡ success) job.id out.1
      → Ends job (persisted b clients job sent out)
  unfolding persisted
  persisted-Ends job sent (some e, s) n h = cc
  persisted-Ends job sent (none, s) n h = record {
    no_error = refl;
    ended = record {
      memory = h.memory;
      job = h.job;
      present = h.present;
      status_is = inl h.status_is;
    };
    told = sym (ap is_success h.status_is);
  }

  with_response-Ends :
      (job : Job) (sent : Option Request) (s : Store.Store b) (r : Result Response)
      → Holds b (λ k. Unit) job.id s
      → Ends job (with_response b clients job sent s r)
  unfolding with_response
  with_response-Ends job sent s (err e) h = fail_job-Ends job _ sent s h
  with_response-Ends job sent s (ok r) h =
      let (n, f) =
        Changes-Holds b (λ k. k ≡ success) job.id _ s _ (λ r. refl)
          (mark_succeeded-Changes b (clients.clock 1) job.id _ r.truncated s h.memory) h in
      persisted-Ends job sent _ n f

  with_params-Ends :
      (job : Job) (conn : Connection) (a : Accepted) (s : Store.Store b) (found : Result Fields)
      → Holds b (λ k. Unit) job.id s
      → Ends job (with_params b clients job conn a s found)
  unfolding with_params
  with_params-Ends job conn a s (err e) h = fail_job-Ends job _ none s h
  with_params-Ends job conn a s (ok params) h = with_response-Ends job _ s _ h

  with_accepted-Ends :
      (job : Job) (conn : Connection) (s : Store.Store b) (found : Checked Accepted)
      → Holds b (λ k. Unit) job.id s
      → Ends job (with_accepted b clients job conn s found)
  unfolding with_accepted
  with_accepted-Ends job conn s (Checked.err e) h = fail_job-Ends job _ none s h
  with_accepted-Ends job conn s (Checked.ok a) h = with_params-Ends job conn a s _ h

  with_policy-Ends :
      (job : Job) (conn : Connection) (s : Store.Store b) (found : Result Policy)
      → Holds b (λ k. Unit) job.id s
      → Ends job (with_policy b clients job conn s found)
  unfolding with_policy
  with_policy-Ends job conn s (err e) h = fail_job-Ends job _ none s h
  with_policy-Ends job conn s (ok policy) h = with_accepted-Ends job conn s _ h

  with_connection-Ends :
      (job : Job) (s : Store.Store b) (found : Result (Option Connection))
      → Holds b (λ k. Unit) job.id s
      → Ends job (with_connection b clients job s found)
  unfolding with_connection
  with_connection-Ends job s (err e) h = fail_job-Ends job _ none s h
  with_connection-Ends job s (ok none) h = fail_job-Ends job _ none s h
  with_connection-Ends job s (ok (some conn)) h = with_policy-Ends job conn s _ h

  with_running-Ends :
      (job : Job) (out : Option Error × Store.Store b)
      → out.0 ≡ none
      → Holds b (λ k. Unit) job.id out.1
      → Ends job (with_running b clients job out)
  unfolding with_running
  with_running-Ends job (some e, s) n h = cc
  with_running-Ends job (none, s) n h = with_connection-Ends job s _ h

  run_job-Ends :
      (job : Job) (s : Store.Store b)
      → Holds b (λ k. Unit) job.id s
      → Ends job (run_job b clients job s)
  unfolding run_job
  run_job-Ends job s h =
      let (n, f) =
        Changes-Holds b (λ k. Unit) job.id _ s _ (λ r. tt)
          (mark_running-Changes b (clients.clock 0) job.id s h.memory) h in
      with_running-Ends job _ n f

  any_status :
      {P : Status → Type 0} {id : Bytes} {s : Store.Store b}
      → Holds b P id s
      → Holds b (λ k. Unit) id s
  any_status h = record { memory = h.memory; job = h.job; present = h.present; status_is = tt }

  by_status-Ends :
      (job : Job) (s : Store.Store b) (text : Bytes) (status : Status)
      → Holds b (λ k. k ≡ status) job.id s
      → Ends job (by_status b clients job s text status)
  by_status-Ends job s text success h = record {
    no_error = refl;
    ended = record {
      memory = h.memory;
      job = h.job;
      present = h.present;
      status_is = inl h.status_is;
    };
    told = sym (ap is_success h.status_is);
  }
  by_status-Ends job s text failed h = record {
    no_error = refl;
    ended = record {
      memory = h.memory;
      job = h.job;
      present = h.present;
      status_is = inr h.status_is;
    };
    told = sym (ap is_success h.status_is);
  }
  by_status-Ends job s text pending h = run_job-Ends job s (any_status h)
  by_status-Ends job s text running h = run_job-Ends job s (any_status h)

  body-Ends :
      (job : Job) (s : Store.Store b)
      → Holds b (λ k. Unit) job.id s
      → Ends job (body b clients job s)
  unfolding body with_existing
  body-Ends job s h =
      rw (h.present, with_existing)
        (by_status-Ends job s h.job.error_message h.job.status
          record { memory = h.memory; job = h.job; present = h.present; status_is = refl })

  -- An event, if there is one, says how the job has ended.
  abbrev pub Tells : Bool → Option Event → Type 0
  Tells c none = Unit
  Tells c (some event) = event.success ≡ c

  pub record Ended (job : Job) (done : Processed b clients) : Type 0 where
    pub ended : Holds b IsTerminal job.id done.store
    pub told : Tells (is_success ended.job.status) done.audited

  publish-Tells :
      (send : Event → Option Error) (event : Event) {c : Bool}
      → event.success ≡ c
      → Tells c (publish b clients send event).1
  unfolding publish
  publish-Tells send event h = elim (Bool-cases (is_empty (trim_space event.tenant_id))) [
    | inl e ↦ rw e tt
    | inr e ↦ rw e h
  ]

  finish-Ended :
      (job : Job) (ran : Ran b clients) (send : Option (Event → Option Error))
      → Ends job ran
      → Ended job (finish b clients job ran send)
  unfolding finish event_of
  finish-Ended job ran none h = record { ended = h.ended; told = tt }
  finish-Ended job ran (some send) h = record {
    ended = h.ended;
    told = publish-Tells send (event_of b clients job ran) h.told;
  }

  -- Processing a job that a store in the process has, whatever the clients answer, leaves it
  -- succeeded or failed, and an audit event that is published says which of the two.
  pub process-Ended :
      (job : Job) (s : Store.Store b)
      → Holds b (λ k. Unit) job.id s
      → Ended job (process b clients job s)
  unfolding process
  process-Ended job s h = finish-Ended job _ clients.publisher (body-Ends job s h)

  -- Nothing is sent and nothing is stored.
  pub record IsIdle (s : Store.Store b) (done : Processed b clients) : Type 0 where
    pub unsent : done.executed ≡ none
    pub unchanged : done.store ≡ s

  finish-IsIdle :
      (job : Job) (s : Store.Store b) (ran : Ran b clients) (send : Option (Event → Option Error))
      → ran.executed ≡ none
      → ran.store ≡ s
      → IsIdle s (finish b clients job ran send)
  unfolding finish
  finish-IsIdle job s ran none e k = record { unsent = e; unchanged = k }
  finish-IsIdle job s ran (some send) e k = record { unsent = e; unchanged = k }

  ended_body :
      (job : Job) (s : Store.Store b)
      → Holds b IsTerminal job.id s
      → ((body b clients job s).executed ≡ none) × ((body b clients job s).store ≡ s)
  unfolding body with_existing
  ended_body job s h = elim h.status_is [
    | inl e ↦ rw (h.present, with_existing, e) (refl, refl)
    | inr e ↦ rw (h.present, with_existing, e) (refl, refl)
  ]

  -- A job that has ended is not run again: nothing is sent to the Connection
  -- Manager and the store stays as it is.
  pub process-IsIdle :
      (job : Job) (s : Store.Store b)
      → Holds b IsTerminal job.id s
      → IsIdle s (process b clients job s)
  unfolding process
  process-IsIdle job s h =
      let (e, k) = ended_body job s h in finish-IsIdle job s _ clients.publisher e k

  -- A job of a store in the process that is delivered a second time is not run again: the second
  -- run sends nothing to the Connection Manager and leaves the store as the first has left it.
  pub process-process :
      (job : Job) (s : Store.Store b)
      → Holds b (λ k. Unit) job.id s
      → IsIdle
          (process b clients job s).store
          (process b clients job (process b clients job s).store)
  process-process job s h =
      process-IsIdle job (process b clients job s).store (process-Ended job s h).ended
