-- ===== src/Plugin.antt =====
-- The health of plugins: services/meta-service/internal/repository/postgres.go,
-- `RecordPluginHealth`, and internal/pluginlifecycle/manager.go.
pub mod Health
mod Tests
