-- ===== src/Meta/Audit/Tests.antt =====
-- A sink over a table that is the list of its IDs.
use n.Base.{ℕ, ◌≡◌, refl, true, List, [], ◌∷◌, Option, none, some, Bytes, codes, eq, contains}
use n.Job.Backend.{job_not_found, Result, ok, err}
use n.Worker.Value.{end}
use n.Meta.Postgres.{Cell, str, no_rows, not_queried, Database}
use n.Meta.Audit.{Event, save_audit_event, handle_messages, handle_message}
use n.Meta.Audit.Once.{added, Keeps, acknowledged_ids, handle_messages-Keeps}

abbrev insert_id : List Cell → List Bytes → Result ℕ × List Bytes
insert_id (str id ∷ cells) ids = (ok 1, added id ids)
insert_id cells ids = (err job_not_found, ids)

abbrev database : Database
database = record {
  State = List Bytes;
  select_row = λ q cells s. no_rows;
  select_rows = λ q cells s. not_queried job_not_found;
  insert_row = λ q cells s. (no_rows, s);
  exec = λ q cells s. insert_id cells s;
  scan_error = job_not_found;
  no_rows_error = job_not_found;
  parse_uuid = λ x. ok x;
  marshal_params = λ m. ok [];
  unmarshal_params = λ p. ok end;
  marshal_tables = λ ts. ok [];
  unmarshal_tables = λ p. ok [];
}

-- An empty payload is no event, any other is its own ID.
abbrev decode : Bytes → Option Event
decode [] = none
decode (c ∷ cs) = some (record {
  id = c ∷ cs;
  tenant_id = codes "t";
  actor_id = [];
  action = codes "query.execute";
  resource_type = codes "query_job";
  resource_id = [];
  success = true;
  error_message = [];
  metadata = end;
  occurred_at = 1;
})

abbrev messages : List Bytes
messages = codes "a" ∷ codes "b" ∷ [] ∷ codes "a" ∷ []

abbrev stored : List Bytes
stored = codes "b" ∷ codes "a" ∷ []

all_stored : handle_messages database decode (λ m. ok []) messages [] ≡ stored
unfolding handle_messages handle_message eq contains save_audit_event
all_stored = refl

handle_messages-Keeps_example :
    Keeps database decode
      (λ m. ok [])
      (λ s. s)
      []
      (handle_messages database decode (λ m. ok []) messages [])
      (acknowledged_ids database decode (λ m. ok []) (λ s. s) messages [])
handle_messages-Keeps_example =
    handle_messages-Keeps database decode (λ m. ok []) (λ s. s) (λ e m s. refl) messages []
