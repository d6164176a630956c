-- ===== src/Worker.antt =====
-- services/query-engine/internal/worker: the workers that run the jobs, and their audit events.
pub mod Value
pub mod Process
pub mod Pool
pub mod Tests
