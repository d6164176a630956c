-- ===== src/Job/Store/Memory.antt =====
-- store.go without Redis: the jobs of the process. What each method does to every job, and what
-- holds of every job after any calls.
use n.Base.{
  ℕ, ◌≡◌, ◌≢◌, refl, sym, ap, ◌∙◌, Bool, true, false, [], Option, none, some, arith, if◌then◌else◌,
  Bytes, eq, eq_iff, lookup, insert, lookup-insert, Bool-cases, inl, inr, ◌⊎◌,
}
use n.Job.Backend.{failed, Error, Result, ok, err, Record, Backend}
use n.Job.Store.{Job, Store, or_not_found, get, keep, update}

-- A failure has left no result, and only a failure has left a message.
pub record IsConsistent {Row : Type 0} (r : Record Row) : Type 0 where
  pub no_rows : r.status ≡ failed → r.rows ≡ []
  pub no_ref : r.status ≡ failed → r.result_ref ≡ []
  pub no_message : r.status ≢ failed → r.error_message ≡ []

-- What a method leaves of a job that it changes.
pub record SameOwner {Row : Type 0} (r r' : Record Row) : Type 0 where
  pub id : r'.id ≡ r.id
  pub tenant : r'.tenant_id ≡ r.tenant_id
  pub connection : r'.connection_id ≡ r.connection_id
  pub sql : r'.sql ≡ r.sql
  pub created : r'.created_at ≡ r.created_at

module _ (b : Backend) where
  pub get-memory :
      (id : Bytes) (s : Store b) → s.redis ≡ none → get b id s ≡ or_not_found b (lookup id s.jobs)
  unfolding get
  get-memory id s m = rw (m, get)

  pub keep-memory :
      (id : Bytes) (r : Job b) (s : Store b)
      → s.redis ≡ none
      → keep b id r s ≡ (none, record s { jobs = insert id r s.jobs })
  unfolding keep
  keep-memory id r s m = ground arith

  or_not_found-if :
      (c : Bool) (r : Job b) (o : Option (Job b))
      → or_not_found b (if c then some r else o) ≡ (if c then ok r else or_not_found b o)
  or_not_found-if true r o = refl
  or_not_found-if false r o = refl

  -- What `keep` has done: the job under its key is the given one, the others are as before.
  pub get-keep :
      (id j : Bytes) (r : Job b) (s : Store b)
      → s.redis ≡ none
      → ((keep b id r s).0 ≡ none)
        × ((keep b id r s).1.redis ≡ none)
        × (get b j (keep b id r s).1 ≡ (if eq id j then ok r else get b j s))
  get-keep id j r s m = rw (keep-memory id r s m) (
    refl,
    m,
    get-memory j (record s { jobs = insert id r s.jobs }) m
        ∙ ap (or_not_found b) (lookup-insert id r s.jobs j)
        ∙ or_not_found-if (eq id j) r (lookup j s.jobs)
        ∙ ap (λ x. if eq id j then ok r else x) (sym (get-memory j s m)),
  )

  abbrev pub map_ok : (Job b → Job b) → Result (Job b) → Result (Job b)
  map_ok f (ok r) = ok (f r)
  map_ok f (err e) = err e

  abbrev pub error_of : Result (Job b) → Option Error
  error_of (ok r) = none
  error_of (err e) = some e

  -- The job `id` is changed by `f`, and no other; a missing job is an error, and nothing changes.
  pub record Changes (id : Bytes) (f : Job b → Job b) (s : Store b) (r : Option Error × Store b)
      : Type 0 where
    pub reported : r.0 ≡ error_of (get b id s)
    pub memory : r.1.redis ≡ none
    pub jobs_are : (j : Bytes) → get b j r.1 ≡ (if eq id j then map_ok f (get b j s) else get b j s)

  abbrev stamped : ℕ → (Job b → Job b) → Job b → Job b
  stamped now f r = record (f r) { updated_at = now }

  if_missing :
      (id j : Bytes) (f : Job b → Job b) (s : Store b) (e : Error)
      → get b id s ≡ err e
      → get b j s ≡ (if eq id j then map_ok f (get b j s) else get b j s)
  if_missing id j f s e h = elim (Bool-cases (eq id j)) [
    | inl p ↦ rw p (rw (← (eq_iff id j).0 p) (rw h))
    | inr p ↦ rw p
  ]

  if_present :
      (id j : Bytes) (f : Job b → Job b) (s : Store b) (r : Job b)
      → get b id s ≡ ok r
      → (if eq id j then ok (f r) else get b j s)
        ≡ (if eq id j then map_ok f (get b j s) else get b j s)
  if_present id j f s r h = elim (Bool-cases (eq id j)) [
    | inl p ↦ rw p (rw (← (eq_iff id j).0 p) (rw h))
    | inr p ↦ rw p
  ]

  pub Changes-present :
      (id : Bytes) (f : Job b → Job b) (s : Store b) (r : Job b)
      → s.redis ≡ none
      → get b id s ≡ ok r
      → Changes id f s (keep b id (f r) s)
  Changes-present id f s r m h = record {
    reported = rw h (get-keep id id (f r) s m).0;
    memory = (get-keep id id (f r) s m).1;
    jobs_are = λ j. (get-keep id j (f r) s m).2 ∙ if_present id j f s r h;
  }

  pub Changes-missing :
      (id : Bytes) (f : Job b → Job b) (s : Store b) (e : Error)
      → s.redis ≡ none
      → get b id s ≡ err e
      → Changes id f s (some e, s)
  Changes-missing id f s e m h = record {
    reported = rw h;
    memory = m;
    jobs_are = λ j. if_missing id j f s e h;
  }

  pub Result-cases : (r : Result (Job b)) → ((a : Job b) × (r ≡ ok a)) ⊎ ((e : Error) × (r ≡ err e))
  Result-cases (ok a) = inl (a, refl)
  Result-cases (err e) = inr (e, refl)

  pub update-Changes :
      (now : ℕ) (id : Bytes) (f : Job b → Job b) (s : Store b)
      → s.redis ≡ none
      → Changes id (stamped now f) s (update b now id f s)
  unfolding update
  update-Changes now id f s m = elim (Result-cases (get b id s)) [
    | inl (r, h) ↦ rw (h, update) (Changes-present id (stamped now f) s r m h)
    | inr (e, h) ↦ rw (h, update) (Changes-missing id (stamped now f) s e m h)
  ]
