-- ===== src/Query/Message.antt =====
-- grpc.go: what `SubmitQuery` gives to the queue.
use n.Base.{◌≡◌, refl, ap, Option, none, some, Bytes, Unicode, Bool-cases, inl, inr}
use n.Job.Backend.{Error, Result, ok, err, Record, Backend}
use n.Job.Store
use n.Job.Store.{create_context, new_job}
use n.Job.Store.Lifecycle.{create_context-ok}
use n.Worker.Process
use n.Query.{
  SubmitQueryRequest, Clients, is_blank, request_record, job_of, with_published, with_payload,
  with_created, with_publisher, submit_query,
}

module _ (b : Backend) (clients : Clients b) where
  -- The encoding of a job with the tenant, the connection and the query of the request.
  pub record IsMessage (req : SubmitQueryRequest) (payload : Bytes) : Type 0 where
    pub job : Process.Job
    pub encoded : clients.encode job ≡ ok payload
    pub tenant_is : job.tenant_id ≡ req.tenant_id
    pub connection_is : job.connection_id ≡ req.connection_id
    pub sql_is : job.sql ≡ req.sql

  with_published-payload :
      (r : Record b.Row) (payload p : Bytes) (s : Store.Store b) (out : Option Error)
      → (with_published b clients r payload s out).message ≡ some p
      → payload ≡ p
  unfolding with_published
  with_published-payload r payload p s none h = cc h
  with_published-payload r payload p s (some e) h = cc h

  with_payload-encoded :
      (send : Bytes → Bytes → Option Error) (r : Record b.Row) (s : Store.Store b) (p : Bytes)
      (found : Result Bytes)
      → (with_payload b clients send r s found).message ≡ some p
      → found ≡ ok p
  unfolding with_payload
  with_payload-encoded send r s p (err e) h = cc h
  with_payload-encoded send r s p (ok payload) h = ap ok (with_published-payload r payload p s _ h)

  with_created-IsMessage :
      (req : SubmitQueryRequest) (id p : Bytes) (send : Bytes → Bytes → Option Error)
      (out : Result (Record b.Row) × Store.Store b)
      → ((x : Record b.Row)
          → out.0 ≡ ok x
          → x ≡ new_job b (clients.clock 0) (request_record b clients id req))
      → (with_created b clients send out).message ≡ some p
      → IsMessage req p
  unfolding with_created
  with_created-IsMessage req id p send (err e, s) n h = cc h
  with_created-IsMessage req id p send (ok r, s) n h =
      let e = n r refl in
      record {
        job = job_of b clients r;
        encoded = with_payload-encoded send r s p _ h;
        tenant_is = ap (λ x. x.tenant_id) e;
        connection_is = ap (λ x. x.connection_id) e;
        sql_is = ap (λ x. x.sql) e;
      }

  with_publisher-IsMessage :
      (req : SubmitQueryRequest) (id p : Bytes) (s : Store.Store b)
      (found : Option (Bytes → Bytes → Option Error))
      → (with_publisher b clients id req s found).message ≡ some p
      → IsMessage req p
  with_publisher-IsMessage req id p s none h = cc h
  with_publisher-IsMessage req id p s (some send) h =
      with_created-IsMessage req id p send _
        (λ x e. create_context-ok b (clients.clock 0) (request_record b clients id req) x s e) h

  -- Over any backend, what a submission gives to the queue is the encoding of a job with the
  -- tenant, the connection and the query of the request.
  pub submit_query-IsMessage :
      ⦃u : Unicode⦄ (nuid : Bytes) (req : SubmitQueryRequest) (s : Store.Store b) (p : Bytes)
      → (submit_query b clients nuid req s).message ≡ some p
      → IsMessage req p
  unfolding submit_query
  submit_query-IsMessage nuid req s p h = elim (Bool-cases (is_blank req.connection_id)) [
    | inl c ↦ let q = (rw c at h) in cc q
    | inr c ↦ elim (Bool-cases (is_blank req.sql)) [
      | inl x ↦ let q = (rw (c, x) at h) in cc q
      | inr x ↦ with_publisher-IsMessage req _ p s _ (rw (c, x) at h)
    ]
  ]
