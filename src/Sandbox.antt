-- ===== src/Sandbox.antt =====
-- services/query-engine/internal/sandbox/sandbox.go: the validation of analytical SQL.
pub mod Token
pub mod Lexer
pub mod Quote
pub mod Tables
pub mod Rewrite
pub mod Validate
mod Tests
