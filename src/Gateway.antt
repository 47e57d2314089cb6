-- ===== src/Gateway.antt =====
-- The gateway that stands in front of a session's workspace (docker/images/gateway).
pub mod Limiter
pub mod Base64
pub mod Token
pub mod Config
pub mod Server
