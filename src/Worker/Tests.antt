-- ===== src/Worker/Tests.antt =====
-- A worker with clients that answer, a store with one job, and the theorems at them.
use n.Base.{
  ℕ, ◌≤◌, ◌≡◌, refl, false, [], ◌∷◌, Option, none, some, Bytes, codes, Unicode, ascii, eq, lookup,
  insert, contains, trim_space, trim_suffix, after_last, join, replace_all, atoi, if◌then◌else◌,
}
use n.Job.Backend.{job_not_found, ok, err, missing, not_fetched, pending, Backend, Record}
use n.Job.Store
use n.Job.Store.{get, mark_running, mark_failed, mark_succeeded}
use n.Sandbox.Lexer.{lex}
use n.Sandbox.Quote.{quote_identifier, quote_literal}
use n.Sandbox.Rewrite.{inject_predicate, parse_limit}
use n.Sandbox.Tables.{extract_tables, identifier, unquote, enforce_allowlist}
use n.Sandbox.Validate.{is_forbidden, validate_policy}
use n.Sandbox.Token.{Policy}
use n.Worker.Value.{
  text, list, object, nil, cons, Fields, field, end, get_field, delete_field,
  policy_from_connection,
}
use n.Worker.Process.{
  Job, Request, Response, Clients, process, body, finish, with_existing, run_job, with_running,
  with_connection, with_policy, with_accepted, with_params, with_response, persisted, fail_job,
  publish, event_of, make_row,
}
use n.Worker.Process.Safety.{Sent, process-Sent}
use n.Worker.Process.Terminal.{Holds, Ended, process-Ended}
use n.Worker.Pool.Once.{requests_for, requests_for_bound}

instance abbrev go_ascii : Unicode
go_ascii = ascii

-- Neither Redis nor the object storage is reached.
abbrev pub nothing : Backend
nothing = record {
  Row = ℕ;
  Redis = Unit {0};
  Objects = Unit {0};
  marshal = λ r. ok [];
  unmarshal = λ p. err job_not_found;
  marshal_rows = λ rows. ok rows;
  unmarshal_rows = λ p. ok p;
  redis_set = λ k v t r. (r, none);
  redis_get = λ k r. missing;
  put_object = λ bucket k v o. (o, none);
  get_object = λ bucket k o. not_fetched job_not_found;
}

abbrev pub params : Fields
params = field (codes "dsn") (text (codes "db")) (
    field (codes "query_policy")
      (object (
        field (codes "allowed_tables") (list (cons (text (codes "t")) nil))
          (field (codes "tenant_column") (text (codes "tenant")) end)))
      end)

abbrev policy : Policy
policy = record {
  allowed_tables = codes "t" ∷ [];
  tenant_column = codes "tenant";
  tenant_value = codes "t1";
}

abbrev pub response : Response
response = record {
  columns = codes "a" ∷ [];
  rows = (text (codes "x") ∷ []) ∷ [];
  truncated = false;
}

abbrev pub clients : Clients nothing
clients = record {
  clock = λ k. k;
  quoted = λ x. x;
  event_id = λ x. x;
  get_connection =
      λ id tenant. ok (some (record { adapter_type = codes "postgres"; params = params }));
  new_struct = λ fields. ok fields;
  execute_query = λ r. ok response;
  to_row = λ row. 7;
  publisher = some (λ event. none);
}

abbrev job : Job
job = record {
  id = codes "j1";
  tenant_id = codes "t1";
  connection_id = codes "c1";
  sql = codes "SELECT a FROM t";
}

abbrev registered : Record ℕ
registered = record {
  id = codes "j1";
  tenant_id = codes "t1";
  connection_id = codes "c1";
  sql = codes "SELECT a FROM t";
  status = pending;
  error_message = [];
  rows = [];
  truncated = false;
  created_at = 0;
  updated_at = 0;
  result_ref = [];
}

abbrev store : Store.Store nothing
store = record {
  jobs = (codes "j1", registered) ∷ [];
  redis = none;
  ttl = 0;
  objects = none;
  bucket = [];
  inline_max = 0;
}

store-Holds : Holds nothing (λ k. Unit) (codes "j1") store
unfolding get lookup eq
store-Holds = record { memory = refl; job = registered; present = refl; status_is = tt }

abbrev request : Request
request = record {
  connection_id = codes "c1";
  sql = codes "SELECT a FROM t WHERE \"t\".\"tenant\" = 't1' LIMIT 10000";
  limit = 0;
  timeout_seconds = 60;
  adapter_type = codes "postgres";
  params = field (codes "dsn") (text (codes "db")) end;
}

process-executed : (process nothing clients job store).executed ≡ some request
unfolding process finish body with_existing run_job with_running with_connection with_policy
    with_accepted with_params with_response persisted fail_job publish event_of make_row get
    mark_running mark_succeeded mark_failed lookup insert get_field delete_field
    policy_from_connection validate_policy lex extract_tables enforce_allowlist identifier
    inject_predicate parse_limit contains eq trim_space trim_suffix after_last join replace_all
    quote_identifier quote_literal atoi unquote is_forbidden
process-executed = refl

process-Sent_example : Sent nothing clients job request
process-Sent_example = process-Sent nothing clients job store request process-executed

process-Ended_example : Ended nothing clients job (process nothing clients job store)
process-Ended_example = process-Ended nothing clients job store store-Holds

-- The payload `1` is the job, any other is not JSON.
abbrev decode : Bytes → Option Job
decode payload = if eq payload (codes "1") then some job else none

decode-job : decode (codes "1") ≡ some job
unfolding eq
decode-job = refl

requests_for_bound_example :
    requests_for nothing clients decode job.id (codes "1" ∷ codes "2" ∷ codes "1" ∷ []) store ≤ 1
requests_for_bound_example =
    requests_for_bound nothing clients decode job.id (codes "1" ∷ codes "2" ∷ codes "1" ∷ []) store
      store-Holds

policy_read : policy_from_connection params (codes "t1") ≡ ok policy
unfolding policy_from_connection get_field eq
policy_read = refl
