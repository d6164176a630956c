-- ===== src/Platform/Tests.antt =====
-- One query on its way from the gateway to the Connection Manager, in a queue whose messages are
-- the fields of a job, each behind its length.
use n.Base.{
  ℕ, ◌≡◌, refl, false, [], ◌∷◌, ◌++◌, Option, none, some, Bytes, codes, Unicode, ascii, eq, length,
  take, drop, take-append, drop-append, lookup, insert, contains, trim_space, trim_suffix,
  after_last, join, replace_all, atoi,
}
use n.Job.Backend.{pending, ok}
use n.Job.Store
use n.Job.Store.{get, create_context, mark_running, mark_succeeded, mark_failed, new_store}
use n.Sandbox.Lexer.{lex}
use n.Sandbox.Quote.{quote_identifier, quote_literal}
use n.Sandbox.Rewrite.{inject_predicate, parse_limit}
use n.Sandbox.Tables.{extract_tables, identifier, unquote, enforce_allowlist}
use n.Sandbox.Validate.{is_forbidden, validate_policy}
use n.Shared.Jwt.{Manager, verify}
use n.Gateway.Types.{Request, submit_query}
use n.Gateway.Handlers.{handle_submit_query}
use n.Gateway.Serve.{Route, serve}
use n.Gateway.Tests.{environment, server, find}
use n.Query
use n.Worker.Value.{text, field, end, get_field, delete_field, policy_from_connection}
use n.Worker.Process
use n.Worker.Process.{
  process, body, finish, with_existing, run_job, with_running, with_connection, with_policy,
  with_accepted, with_params, with_response, persisted, fail_job, publish, event_of, make_row,
}
use n.Worker.Tests.{nothing, clients}
use n.Platform.{OnBehalf, serve-submit_query-process}

instance abbrev go_ascii : Unicode
go_ascii = ascii

frame : Bytes → Bytes → Bytes
frame x rest = length x ∷ (x ++ rest)

unframe : Bytes → Bytes × Bytes
unframe [] = ([], [])
unframe (k ∷ rest) = (take k rest, drop k rest)

unframe-frame : (x rest : Bytes) → unframe (frame x rest) ≡ (x, rest)
unfolding frame unframe
unframe-frame x rest = rw (take-append x rest) (rw (drop-append x rest) refl)

encode : Process.Job → Bytes
encode j = frame j.id (frame j.tenant_id (frame j.connection_id (frame j.sql [])))

decode : Bytes → Option Process.Job
decode p =
    let id = unframe p in
    let tenant = unframe id.1 in
    let connection = unframe tenant.1 in
    some (record {
      id = id.0;
      tenant_id = tenant.0;
      connection_id = connection.0;
      sql = (unframe connection.1).0;
    })

decode-encode : (j : Process.Job) → decode (encode j) ≡ some j
unfolding decode encode
decode-encode j = rw (unframe-frame j.id _) (
    rw (unframe-frame j.tenant_id _)
      (rw (unframe-frame j.connection_id _) (rw (unframe-frame j.sql []) refl)))

abbrev senders : Query.Clients nothing
senders = record {
  Struct = ℕ;
  clock = λ k. k;
  encode = λ j. ok (encode j);
  publish = some (λ subject payload. none);
  new_struct = λ row. ok row;
}

decodes : (j : Process.Job) (p : Bytes) → senders.encode j ≡ ok p → decode p ≡ some j
decodes j p h = let e : encode j ≡ p = cc h in rw (← e) (decode-encode j)

abbrev manager : Manager
manager = record { secret = codes "s"; issuer = codes "n0"; expiry = 60 }

abbrev asked : Request
asked = record {
  method = codes "POST";
  path = codes "/v1/query";
  raw_query = [];
  headers = [];
  body = codes "SELECT a FROM t";
}

abbrev submission : Query.SubmitQueryRequest
submission = record {
  tenant_id = codes "u1";
  connection_id = codes "c1";
  sql = codes "SELECT a FROM t";
}

abbrev job : Process.Job
job = record {
  id = codes "job-ab";
  tenant_id = codes "u1";
  connection_id = codes "c1";
  sql = codes "SELECT a FROM t";
}

submitted_on : (serve environment find server asked).call ≡ some (submit_query submission)
unfolding serve verify handle_submit_query
submitted_on = refl

message_sent :
    (Query.submit_query nothing senders (codes "AB") submission (new_store nothing)).message
    ≡ some (encode job)
unfolding Query.submit_query create_context new_store insert eq trim_space
message_sent = refl

-- The store that the submission has left.
abbrev queued : Store.Store nothing
queued = record {
  jobs =
      (
        codes "job-ab",
        record {
          id = codes "job-ab";
          tenant_id = codes "u1";
          connection_id = codes "c1";
          sql = codes "SELECT a FROM t";
          status = pending;
          error_message = [];
          rows = [];
          truncated = false;
          created_at = 0;
          updated_at = 0;
          result_ref = [];
        },
      )
      ∷ [];
  redis = none;
  ttl = 0;
  objects = none;
  bucket = [];
  inline_max = 0;
}

left_queued :
    (Query.submit_query nothing senders (codes "AB") submission (new_store nothing)).store ≡ queued
unfolding Query.submit_query create_context new_store insert eq trim_space
left_queued = refl

abbrev request : Process.Request
request = record {
  connection_id = codes "c1";
  sql = codes "SELECT a FROM t WHERE \"t\".\"tenant\" = 'u1' LIMIT 10000";
  limit = 0;
  timeout_seconds = 60;
  adapter_type = codes "postgres";
  params = field (codes "dsn") (text (codes "db")) end;
}

request_sent : (process nothing clients job queued).executed ≡ some request
unfolding process finish body with_existing run_job with_running with_connection with_policy
    with_accepted with_params with_response persisted fail_job publish event_of make_row get
    mark_running mark_succeeded mark_failed lookup insert get_field delete_field
    policy_from_connection validate_policy lex extract_tables enforce_allowlist identifier
    inject_predicate parse_limit contains eq trim_space trim_suffix after_last join replace_all
    quote_identifier quote_literal atoi unquote is_forbidden
request_sent = refl

serve-submit_query-process_example :
    OnBehalf environment nothing senders clients manager asked (codes "c1") submission.sql request
serve-submit_query-process_example =
    serve-submit_query-process environment nothing senders clients find server manager asked
      Route.query [] submission (codes "AB") (encode job) (new_store nothing) queued decode job
      request (λ raw key value. refl) decodes refl refl refl submitted_on message_sent
      (decode-encode job) request_sent
