-- ===== src/Job/Store.antt =====
-- store.go: `Store` and its methods, but for the pages of a result (Job/Paging.antt). A method
-- takes the time that `time.Now` reads and the store, and returns its result with the new store.
-- Each method holds the store's lock where it reads or writes the map, so it is one step here.
-- A row list that is nil is the empty list, and `cloneRows` copies values that are never shared.
pub mod Memory
pub mod Lifecycle
pub mod Tenant
use n.Base.{
  ℕ, Bool, true, false, not, ◌||◌, List, [], ◌∷◌, ◌++◌, Option, none, some, ltb, if◌then◌else◌,
  Bytes, codes, eq, length, Dict, lookup, insert,
}
use n.Job.Backend.{
  Status, pending, running, success, failed, Error, job_not_found, message, wrap, Result, ok, err,
  Record, Reply, found, missing, unreachable, Backend,
}

module _ (b : Backend) where
  abbrev pub Job : Type 0
  Job = Record b.Row

  -- `redis` and `objects` are the clients, nil or not, with the state of what they reach.
  pub record Store : Type 0 where
    pub jobs : Dict Job
    pub redis : Option b.Redis
    pub ttl : ℕ
    pub objects : Option b.Objects
    pub bucket : Bytes
    pub inline_max : ℕ

  -- `NewStore`.
  unfoldable pub new_store : Store
  new_store = record {
    jobs = [];
    redis = none;
    ttl = 0;
    objects = none;
    bucket = [];
    inline_max = 0;
  }

  abbrev job_key : Bytes → Bytes
  job_key id = codes "n0:job:" ++ id

  abbrev decoded : Result Job → Result Job
  decoded (ok r) = ok r
  decoded (err e) = err (wrap (codes "decode job") e)

  abbrev loaded : Reply → Result Job
  loaded missing = err job_not_found
  loaded (unreachable e) = err (wrap (codes "load job") e)
  loaded (found payload) = decoded (b.unmarshal payload)

  pub load : Bytes → b.Redis → Result Job
  load id redis = loaded (b.redis_get (job_key id) redis)

  abbrev or_not_found : Option Job → Result Job
  or_not_found none = err job_not_found
  or_not_found (some r) = ok r

  -- `Get`.
  unfoldable pub get : Bytes → Store → Result Job
  unfolding load lookup
  get id s = elim s.redis [ some redis ↦ load id redis | none ↦ or_not_found (lookup id s.jobs) ]

  abbrev owned_by : Bytes → Result Job → Result Job
  owned_by tenant (err e) = err job_not_found
  owned_by tenant (ok r) = if not (eq r.tenant_id tenant) then err job_not_found else ok r

  -- `GetForTenant`.
  unfoldable pub get_for_tenant : Bytes → Bytes → Store → Result Job
  unfolding get
  get_for_tenant id tenant s = owned_by tenant (get id s)

  abbrev set_redis : Store → b.Redis × Option Error → Option Error × Store
  set_redis s (redis, none) = (none, record s { redis = some redis })
  set_redis s (redis, some e) = (some (wrap (codes "save job") e), record s { redis = some redis })

  abbrev saved : Store → Bytes → b.Redis → Result Bytes → Option Error × Store
  saved s id redis (err e) = (some (wrap (codes "marshal job") e), s)
  saved s id redis (ok payload) = set_redis s (b.redis_set (job_key id) payload s.ttl redis)

  -- `save`, for the client that the caller has found.
  pub save : Job → b.Redis → Store → Option Error × Store
  save r redis s = saved s r.id redis (b.marshal r)

  -- The end of `CreateContext`, `update` and `MarkSucceeded`: into Redis, or into the map under
  -- the given key.
  pub keep : Bytes → Job → Store → Option Error × Store
  unfolding save insert
  keep id r s = elim s.redis [
    | some redis ↦ save r redis s
    | none ↦ (none, record s { jobs = insert id r s.jobs })
  ]

  abbrev created : Job → Option Error × Store → Result Job × Store
  created r (none, s) = (ok r, s)
  created r (some e, s) = (err e, s)

  abbrev pub new_job : ℕ → Job → Job
  new_job now r = record r {
    status = pending;
    error_message = [];
    created_at = now;
    updated_at = now;
  }

  -- `CreateContext`.
  unfoldable pub create_context : ℕ → Job → Store → Result Job × Store
  unfolding keep
  create_context now r s = created (new_job now r) (keep r.id (new_job now r) s)

  abbrev updated : ℕ → Bytes → (Job → Job) → Store → Result Job → Option Error × Store
  updated now id mutate s (err e) = (some e, s)
  updated now id mutate s (ok r) = keep id (record (mutate r) { updated_at = now }) s

  -- `update`.
  pub update : ℕ → Bytes → (Job → Job) → Store → Option Error × Store
  update now id mutate s = updated now id mutate s (get id s)

  -- `MarkRunning`.
  unfoldable pub mark_running : ℕ → Bytes → Store → Option Error × Store
  unfolding update keep get
  mark_running now id s = update now id (λ r. record r { status = running; error_message = [] }) s

  -- `MarkFailed`.
  unfoldable pub mark_failed : ℕ → Bytes → Bytes → Store → Option Error × Store
  unfolding update keep get
  mark_failed now id text s =
      update now id
        (λ r. record r { status = failed; error_message = text; rows = []; result_ref = [] }) s

  abbrev pub succeeded : ℕ → List b.Row → Bool → Job → Job
  succeeded now rows truncated r = record r {
    status = success;
    error_message = [];
    truncated = truncated;
    updated_at = now;
    rows = rows;
  }

  abbrev pub result_key : Bytes → Bytes
  result_key id = codes "results/" ++ (id ++ codes ".json")

  abbrev stored_object : Bytes → Job → Store → b.Objects × Option Error → Option Error × Store
  stored_object id r s (objects, some e) =
      (some (wrap (codes "store object result") e), record s { objects = some objects })
  stored_object id r s (objects, none) =
      keep id (record r { rows = []; result_ref = result_key id })
        (record s { objects = some objects })

  abbrev put_result : Bytes → Bytes → Job → Store → Option b.Objects → Option Error × Store
  put_result id payload r s none =
      (some (message (codes "result exceeds inline limit and object storage is unavailable")), s)
  put_result id payload r s (some objects) =
      stored_object id r s (b.put_object s.bucket (result_key id) payload objects)

  abbrev persist : Bytes → Job → Store → Result Bytes → Option Error × Store
  persist id r s (err e) = (some (wrap (codes "marshal result") e), s)
  persist id r s (ok payload) =
      if ltb s.inline_max (length payload) then put_result id payload r s s.objects else keep id r s

  abbrev succeed : Bytes → List b.Row → Job → Store → Option Error × Store
  succeed id rows r s = elim s.redis [
    | some redis ↦ persist id r s (b.marshal_rows rows)
    | none ↦ keep id r s
  ]

  abbrev succeed_with : ℕ → Bytes → List b.Row → Bool → Store → Result Job → Option Error × Store
  succeed_with now id rows truncated s (err e) = (some e, s)
  succeed_with now id rows truncated s (ok r) = succeed id rows (succeeded now rows truncated r) s

  -- `MarkSucceeded`.
  unfoldable pub mark_succeeded : ℕ → Bytes → List b.Row → Bool → Store → Option Error × Store
  unfolding keep get
  mark_succeeded now id rows truncated s = succeed_with now id rows truncated s (get id s)
