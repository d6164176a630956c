-- ===== src/Job.antt =====
-- services/query-engine/internal/job/store.go: the jobs of the Query Engine and their results.
pub mod Backend
pub mod Store
pub mod Paging
mod Tests
