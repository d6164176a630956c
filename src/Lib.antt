-- ===== src/Lib.antt =====
-- n0, a platform that gives agents tenant-scoped, read-only access to data: an agent submits SQL as
-- a job; the Query Engine stores the job, a worker validates its text in the sandbox and has the
-- Connection Manager run it, and the tenant reads the status and the pages of the result.
--
-- Platform*.antt: the composition of the gateway, the Query Engine and the sandbox along the way of
--   one query; no code of its own. That a job is decoded from what it is encoded to is a hypothesis.
-- Base*.antt: shared names, Boolean tests, lists over the native numbers, Go strings as lists of
--   bytes (TrimSpace with its UTF-8 white space, Trim, Join, Atoi on 64 bits) and Go maps as
--   association lists. strings.ToLower reads Unicode tables: it is the field of `Unicode`, an
--   instance argument, and no theorem needs a law of it.
-- Sandbox*.antt: services/query-engine/internal/sandbox/sandbox.go. `lex`, `extractTables`,
--   `enforceAllowlist`, `parseLimit`, `injectPredicate`, `ValidatePolicy`, `Validate` under their
--   names. A loop that moves its index over a token is a recursion on the bytes (or tokens) that
--   passes over the rest of the token, so no fuel is used. A reject reason is a value of `Reason`,
--   and `reason_text` writes its message. The tables of a query are what `extractTables` looks for, the
--   names behind FROM and JOIN: a table behind a later comma is none of them.
-- Job*.antt: services/query-engine/internal/job/store.go. A `Store` is a record: its map of jobs,
--   its clients (nil or not) with the state behind them, its limits. Redis, the object storage and
--   JSON are the parameter `Backend`, of which no theorem assumes a law; rows are of its type `Row`.
--   Page numbers are int32 with their wrap-around. Building the clients (NewDurableStore) is not
--   modelled.
-- Worker*.antt: services/query-engine/internal/worker/processor.go and worker.go, with the events of
--   pkg/shared/audit/audit.go. `Process` is a chain of functions, one behind each call that can
--   fail; the Meta Service, the Connection Manager, structpb, the clock and the publisher are the
--   parameter `Clients`, of which no theorem assumes a law. A run returns its error, the store, the
--   request it has sent and the event it has published, of which the time and the encoding are left
--   out. The waiting and stopping of the workers is not modelled.
-- Query*.antt: services/query-engine/internal/server/grpc.go. `SubmitQuery`, `GetJobStatus` and
--   `GetJobResult` over the store, as replies with the code and the text of the gRPC status; a panic
--   is a reply of its own. The queue, JSON, NUIDs and structpb are the parameter `Clients`. The HTTP
--   routes in front of them, the chart constant and starting the server are not modelled.
-- Connection*.antt: services/connection-manager/internal: dsn/builder.go, registry/registry.go and
--   server/grpc.go. The drivers, the plugins, gRPC and the writing of a URL are parameters, of which
--   no theorem assumes a law. Closing a connection adds it to a list of the registry. Postgres.antt
--   is adapter/postgres.go over its driver; a Go map that is ranged over is the list of its entries.
--   `List`, the wrapper of a plugin's client and the other adapters are not modelled.
-- Gateway*.antt: services/agent-gateway/internal/gateway: gateway.go, with the middlewares for CORS and
--   JWT, the table of routes and every handler, and mcp.go with its tools. A handler returns the
--   request that it sends on, if any, with its response. The services behind it, the router, HTTP,
--   JSON and the MCP library are the parameter `Environment`. Page numbers are read by Atoi, which
--   stops at the ends of int64, and cut to int32.
-- Shared*.antt: pkg/shared/crypto/aes.go and pkg/shared/jwt/jwt.go. AES-GCM, base64, JSON, the random
--   source and the JWT library are parameters; that they read back what they write is a hypothesis
--   of the round trips, and that the JWT library checks what its options ask for one of the trust in
--   a verified token.
-- Meta*.antt: services/meta-service: every method of `MetaService` (internal/app/app.go) and of
--   `GRPCServer` (internal/server/grpc.go). The interface `Repository` and the client of the
--   Connection Manager are records over states of their own; a UUID is its text and `time.Now` an
--   argument. That the repository finds what it has created, and what bcrypt, the random source and
--   base64 do, are hypotheses of the theorems that need them. Postgres.antt with its children is
--   internal/repository/postgres.go, which fills that interface: a database is a parameter that
--   answers a statement, by its SQL, with rows of cells, and a row of other columns is an error.
--   Audit.antt is internal/auditsink/sink.go with `SaveAuditEvent`, message after message.
-- Plugin*.antt: what services/meta-service/internal/repository/postgres.go (`RecordPluginHealth`)
--   computes between its SQL statements, and the routes of internal/pluginlifecycle/manager.go.
--
-- Not modelled: the HTTP routes of the Meta Service, the remaining shared packages, the start of the
-- services, and what is generated from the .proto files.
pub mod Base
pub mod Sandbox
pub mod Job
pub mod Worker
pub mod Query
pub mod Connection
pub mod Plugin
pub mod Gateway
pub mod Meta
pub mod Shared
pub mod Platform
