-- ===== src/Connection.antt =====
-- services/connection-manager: the adapters of the databases and what is sent to them.
pub mod Dsn
pub mod Registry
pub mod Postgres
pub mod Service
mod Tests
