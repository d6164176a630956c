-- ===== src/Worker/Process/Isolation.antt =====
-- processor.go with sandbox.go: what the tenant of a job means for the request that is sent for it.
use n.Base.{
  ◌⊎◌, inl, inr, true, Bool-cases, ◌≡◌, ◌≢◌, false, List, [], ◌∷◌, All, some, Bytes, Unicode,
  is_empty,
}
use n.Job.Backend.{ok, Backend}
use n.Job.Store
use n.Sandbox.Token.{ok, Policy, Token}
use n.Sandbox.Tables.{TableRef}
use n.Sandbox.Tables.Allowlist.{Listed}
use n.Sandbox.Tables.Reads.{Reads}
use n.Sandbox.Lexer.{lex}
use n.Sandbox.Validate.{strip}
use n.Sandbox.Validate.Policy.{TablesOf, validate_policy-tables}
use n.Sandbox.Validate.Tenant.{Scoped, IsNamed, column_is, validate_policy-Scoped}
use n.Worker.Value.{policy_from_connection, policy_from_connection-tenant}
use n.Worker.Process.{Job, Connection, Request, Clients, process}
use n.Worker.Process.Safety.{Sent, process-Sent}

module _ ⦃u : Unicode⦄ (b : Backend) (clients : Clients b) where
  -- The text is the query, of one table, with the tenant predicate of the policy.
  pub record ScopedQuery (sql : Bytes) (tables : List Bytes) (policy : Policy) (text : Bytes)
      : Type 0 where
    pub tokens : List Token
    pub ref : TableRef
    pub lexed : lex (strip sql) ≡ ok tokens
    pub reads : Reads tokens (ref ∷ [])
    pub one : tables ≡ ref.table ∷ []
    pub name : Bytes
    pub is_named : IsNamed ref name
    pub scope :
        Scoped (strip sql) tokens (column_is name policy.tenant_column policy.tenant_value) text

  -- A request on behalf of the tenant, for a query on that connection: Meta Service has the
  -- connection for the tenant, its policy lists every table that the query names behind FROM and
  -- JOIN, and if it names a tenant column, the text of the request is the query, of one such table,
  -- with the predicate that the column of the table is the tenant.
  pub record Isolated (tenant connection_id sql : Bytes) (request : Request) : Type 0 where
    pub conn : Connection
    pub policy : Policy
    pub tables : List Bytes
    pub named : TablesOf sql tables
    pub connected : clients.get_connection connection_id tenant ≡ ok (some conn)
    pub permitted : policy_from_connection conn.params tenant ≡ ok policy
    pub reads : tables ≢ []
    pub listed : All (Listed policy.allowed_tables) tables
    pub tenant_is : policy.tenant_value ≡ tenant
    pub scoped : is_empty policy.tenant_column ≡ true ⊎ ScopedQuery sql tables policy request.sql

  request-Scoped :
      (job : Job) (request : Request) (x : Sent b clients job request)
      → is_empty x.policy.tenant_column ≡ false
      → ScopedQuery job.sql x.accepted.tables x.policy request.sql
  request-Scoped job request x c =
      let (tokens, r, lexed, reads, one, i, v, name, named, s) =
        validate_policy-Scoped job.sql x.policy x.accepted c x.validated in
      record {
        tokens = tokens;
        ref = r;
        lexed = lexed;
        reads = reads;
        one = one;
        name = name;
        is_named = named;
        scope = rw x.sql_is s;
      }

  -- Whatever the store and the clients, a request that a worker sends for a job is on behalf of the
  -- job's tenant.
  pub process-Isolated :
      (job : Job) (s : Store.Store b) (request : Request)
      → (process b clients job s).executed ≡ some request
      → Isolated job.tenant_id job.connection_id job.sql request
  process-Isolated job s request h =
      let x = process-Sent b clients job s request h in
      let (named, reads, some_listed, listed) =
        validate_policy-tables job.sql x.policy x.accepted x.validated in
      record {
        conn = x.conn;
        policy = x.policy;
        tables = x.accepted.tables;
        named = named;
        connected = x.connected;
        permitted = x.permitted;
        reads = reads;
        listed = listed;
        tenant_is = policy_from_connection-tenant x.conn.params job.tenant_id x.policy x.permitted;
        scoped = elim (Bool-cases (is_empty x.policy.tenant_column)) [
          | inl c ↦ inl c
          | inr c ↦ inr (request-Scoped job request x c)
        ];
      }
