-- ===== src/Job/Backend.antt =====
-- store.go: `Record`, the errors of the package, and what the store uses of the libraries: JSON,
-- Redis and the object storage, as the fields of `Backend`.
use n.Base.{ℕ, Bool, List, ◌++◌, Option, Bytes, codes}

pub data Status : Type 0 where
  pending running success failed : Status

-- A Go error: `ErrJobNotFound`, or a message.
pub data Error : Type 0 where
  job_not_found : Error
  message : Bytes → Error

-- `err.Error()`.
unfoldable pub error_text : Error → Bytes
error_text job_not_found = codes "job not found"
error_text (message m) = m

-- `fmt.Errorf("…: %w", err)`.
unfoldable pub wrap : Bytes → Error → Error
unfolding error_text
wrap prefix e = message (prefix ++ (codes ": " ++ error_text e))

pub data Result {ℓ} (A : Type ℓ) : Type ℓ where
  ok : A → Result A
  err : Error → Result A

-- A row is a `map[string]any`; a time is counted from some origin.
pub record Record (Row : Type 0) : Type 0 where
  pub id : Bytes
  pub tenant_id : Bytes
  pub connection_id : Bytes
  pub sql : Bytes
  pub status : Status
  pub error_message : Bytes
  pub rows : List Row
  pub truncated : Bool
  pub created_at : ℕ
  pub updated_at : ℕ
  pub result_ref : Bytes

-- What `redis.Get` answers.
pub data Reply : Type 0 where
  found : Bytes → Reply
  missing : Reply
  unreachable : Error → Reply

-- What `GetObject` and the reading of its stream answer.
pub data Fetch : Type 0 where
  fetched : Bytes → Fetch
  not_fetched not_read : Error → Fetch

pub record Backend : Type 1 where
  pub Row : Type 0
  pub Redis : Type 0
  pub Objects : Type 0
  pub marshal : Record Row → Result Bytes
  pub unmarshal : Bytes → Result (Record Row)
  pub marshal_rows : List Row → Result Bytes
  pub unmarshal_rows : Bytes → Result (List Row)
  pub redis_set : Bytes → Bytes → ℕ → Redis → Redis × Option Error
  pub redis_get : Bytes → Redis → Reply
  pub put_object : Bytes → Bytes → Bytes → Objects → Objects × Option Error
  pub get_object : Bytes → Bytes → Objects → Fetch
