-- ===== src/Query/Submit.antt =====
-- grpc.go, `SubmitQuery` on a store in the process: a job is registered and given to the queue, or
-- it is not left pending.
use n.Base.{
  ◌≡◌, refl, sym, ap, ◌∙◌, false, Option, none, some, Bytes, codes, ◌++◌, Unicode, if◌then◌else◌,
  Bool-cases, inl, inr, eq, eq_refl,
}
use n.Job.Backend.{Status, pending, failed, Error, error_text, Result, ok, err, Record, Backend}
use n.Job.Store
use n.Job.Store.{get, new_job, create_context, mark_failed}
use n.Job.Store.Memory.{Changes, map_ok}
use n.Job.Store.Lifecycle.{create_context-new_job, mark_failed-Changes}
use n.Query.{
  Code, Reply, answered, refused, crashed, SubmitQueryRequest, Clients, query_subject, is_blank,
  Submitted, refuse, request_record, job_of, with_published, with_payload, with_created,
  with_publisher, submit_query,
}

module _ (b : Backend) (clients : Clients b) where
  -- No job is pending that was not so before.
  pub record LeavesNone (s : Store.Store b) (done : Submitted b clients) : Type 0 where
    pub none_pending :
        (j : Bytes) (r : Record b.Row)
        → get b j done.store ≡ ok r
        → r.status ≡ pending
        → get b j s ≡ ok r

  -- The answered job is stored, pending, with what the request says, and its message has gone to
  -- the queue, which has taken it.
  pub record Queued (req : SubmitQueryRequest) (s : Store.Store b) (id : Bytes)
      (done : Submitted b clients) : Type 0 where
    pub job : Record b.Row
    pub payload : Bytes
    pub send : Bytes → Bytes → Option Error
    pub present : get b id done.store ≡ ok job
    pub is_pending : job.status ≡ pending
    pub tenant_is : job.tenant_id ≡ req.tenant_id
    pub connection_is : job.connection_id ≡ req.connection_id
    pub sql_is : job.sql ≡ req.sql
    pub encoded : clients.encode (job_of b clients job) ≡ ok payload
    pub publisher_is : clients.publish ≡ some send
    pub taken : send query_subject payload ≡ none
    pub sent : done.message ≡ some payload
    pub others : (j : Bytes) → eq id j ≡ false → get b j done.store ≡ get b j s

  -- What the branches of a submission leave behind, by what it answers.
  abbrev pub Fate :
      SubmitQueryRequest
      → Store.Store b
      → Bytes
      → Submitted b clients
      → Reply (Bytes × Status)
      → Type 0
  Fate req s id done (answered (j, k)) = (j ≡ id) × (k ≡ pending) × Queued req s id done
  Fate req s id done (refused code text) = LeavesNone s done
  Fate req s id done crashed = ⊥

  -- A store that is the old one but for one job, which is new and pending.
  record Registered (r : Record b.Row) (s s' : Store.Store b) : Type 0 where
    memory : s'.redis ≡ none
    jobs_are : (j : Bytes) → get b j s' ≡ (if eq r.id j then ok r else get b j s)

  failed_pending :
      (r : Record b.Row) (s s' : Store.Store b) (out : Option Error × Store.Store b)
      (f : Record b.Row → Record b.Row) (j : Bytes) (k : Record b.Row)
      → Registered r s s'
      → Changes b r.id f s' out
      → ((x : Record b.Row) → (f x).status ≡ failed)
      → get b j out.1 ≡ ok k
      → k.status ≡ pending
      → get b j s ≡ ok k
  failed_pending r s s' out f j k g c w h p = elim (Bool-cases (eq r.id j)) [
    | inl q ↦
        let h' : map_ok b f (get b j s') ≡ ok k = (rw q at (sym (c.jobs_are j) ∙ h)) in
        let here : get b j s' ≡ ok r = g.jobs_are j ∙ rw q refl in
        let h'' : ok (f r) ≡ ok k = (rw here at h') in
        let e : f r ≡ k = cc in
        let bad : failed ≡ pending = sym (w r) ∙ ap (λ x. x.status) e ∙ p in cc bad
    | inr q ↦
        let h' : get b j s' ≡ ok k = (rw q at (sym (c.jobs_are j) ∙ h)) in
        (rw q at (sym (g.jobs_are j) ∙ h'))
  ]

  with_published-Fate :
      (req : SubmitQueryRequest) (r : Record b.Row) (payload : Bytes) (s s' : Store.Store b)
      (send : Bytes → Bytes → Option Error) (o : Option Error)
      → Registered r s s'
      → r.status ≡ pending
      → (r.tenant_id ≡ req.tenant_id) × (r.connection_id ≡ req.connection_id) × (r.sql ≡ req.sql)
      → clients.encode (job_of b clients r) ≡ ok payload
      → clients.publish ≡ some send
      → send query_subject payload ≡ o
      → Fate req s r.id
          (with_published b clients r payload s' o)
          (with_published b clients r payload s' o).reply
  unfolding with_published
  with_published-Fate req r payload s s' send none g p (t, c, q) e w k = (
    refl,
    p,
    record {
      job = r;
      payload = payload;
      send = send;
      present = g.jobs_are r.id ∙ rw (eq_refl r.id) refl;
      is_pending = p;
      tenant_is = t;
      connection_is = c;
      sql_is = q;
      encoded = e;
      publisher_is = w;
      taken = k;
      sent = refl;
      others = λ j n. g.jobs_are j ∙ rw n refl;
    },
  )
  with_published-Fate req r payload s s' send (some x) g p f e w k = record {
    none_pending = λ j y h a.
        failed_pending r s s' _ _ j y g
          (mark_failed-Changes b (clients.clock 1) r.id (codes "publish job: " ++ error_text x) s'
            g.memory)
          (λ z. refl) h a;
  }

  with_payload-Fate :
      (req : SubmitQueryRequest) (r : Record b.Row) (s s' : Store.Store b)
      (send : Bytes → Bytes → Option Error) (found : Result Bytes)
      → Registered r s s'
      → r.status ≡ pending
      → (r.tenant_id ≡ req.tenant_id) × (r.connection_id ≡ req.connection_id) × (r.sql ≡ req.sql)
      → clients.publish ≡ some send
      → clients.encode (job_of b clients r) ≡ found
      → Fate req s r.id
          (with_payload b clients send r s' found)
          (with_payload b clients send r s' found).reply
  unfolding with_payload
  with_payload-Fate req r s s' send (ok payload) g p f w e =
      with_published-Fate req r payload s s' send _ g p f e w refl
  with_payload-Fate req r s s' send (err x) g p f w e = record {
    none_pending = λ j y h a.
        failed_pending r s s' _ _ j y g
          (mark_failed-Changes b (clients.clock 1) r.id
            (codes "marshal job payload: " ++ error_text x) s' g.memory)
          (λ z. refl) h a;
  }

  with_created-Fate :
      (req : SubmitQueryRequest) (r : Record b.Row) (s : Store.Store b)
      (send : Bytes → Bytes → Option Error) (out : Result (Record b.Row) × Store.Store b)
      → out.0 ≡ ok r
      → Registered r s out.1
      → r.status ≡ pending
      → (r.tenant_id ≡ req.tenant_id) × (r.connection_id ≡ req.connection_id) × (r.sql ≡ req.sql)
      → clients.publish ≡ some send
      → Fate req s r.id (with_created b clients send out) (with_created b clients send out).reply
  unfolding with_created
  with_created-Fate req r s send (err x, s') h g p f w = cc h
  with_created-Fate req r s send (ok r', s') h g p f w =
      let e : r' ≡ r = cc h in rw e (with_payload-Fate req r s s' send _ g p f w refl)

  unchanged :
      (s : Store.Store b) (code : Code) (text : Bytes)
      → LeavesNone s (refuse b clients code text none s)
  unchanged s code text = record { none_pending = λ j r h p. h }

  with_publisher-Fate :
      (id : Bytes) (req : SubmitQueryRequest) (s : Store.Store b)
      (publish : Option (Bytes → Bytes → Option Error))
      → s.redis ≡ none
      → clients.publish ≡ publish
      → Fate req s id
          (with_publisher b clients id req s publish)
          (with_publisher b clients id req s publish).reply
  with_publisher-Fate id req s none m w = unchanged s _ _
  with_publisher-Fate id req s (some send) m w =
      let (done, memory, jobs_are) =
        create_context-new_job b (clients.clock 0) (request_record b clients id req) s m in
      with_created-Fate req (new_job b (clients.clock 0) (request_record b clients id req)) s send _
        done (record { memory = memory; jobs_are = jobs_are }) refl (refl, refl, refl) w

  module _ ⦃u : Unicode⦄ where
    -- With a store in the process, an answered submission is a job that is stored, pending, under
    -- the ID answered, with the tenant, the connection and the query of the request, whose message
    -- the queue has taken, and no other job has changed; a refused one leaves no job pending that
    -- was not pending before; a submission never panics.
    pub submit_query-Fate :
        (nuid : Bytes) (req : SubmitQueryRequest) (s : Store.Store b)
        → s.redis ≡ none
        → Fate req s
            (codes "job-" ++ u.to_lower nuid)
            (submit_query b clients nuid req s)
            (submit_query b clients nuid req s).reply
    unfolding submit_query
    submit_query-Fate nuid req s m = elim (Bool-cases (is_blank req.connection_id)) [
      | inl c ↦ rw c (unchanged s _ _)
      | inr c ↦ elim (Bool-cases (is_blank req.sql)) [
        | inl q ↦ rw c (rw q (unchanged s _ _))
        | inr q ↦ rw c (
            rw q
              (with_publisher-Fate (codes "job-" ++ u.to_lower nuid) req s clients.publish m refl))
      ]
    ]
