-- ===== src/Gateway.antt =====
-- services/agent-gateway/internal/gateway: the public HTTP and MCP interface of the platform.
pub mod Types
pub mod Handlers
pub mod Mcp
pub mod Serve
pub mod Access
pub mod Redaction
pub mod Tests
