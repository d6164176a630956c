-- ===== src/Shared.antt =====
-- pkg/shared: what the services share.
pub mod Crypto
pub mod Jwt
