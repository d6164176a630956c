-- ===== src/Meta.antt =====
-- services/meta-service: the users, connections, plugins and schemas that the other services ask for.
-- `Types` has the structs of internal/app/app.go and what it calls; `App` the methods of
-- `MetaService` on connections and workspaces, `Schema`, `Plugins` and `Users` the others; `Server`
-- is internal/server/grpc.go and `Postgres` internal/repository/postgres.go.
pub mod Types
pub mod App
pub mod Schema
pub mod Plugins
pub mod Users
pub mod Server
pub mod Postgres
pub mod Audit
pub mod Tests
