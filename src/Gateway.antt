-- ===== src/Gateway.antt =====
-- internal/gateway: the HTTP edge.
pub mod Header
pub mod Authenticate
pub mod RateLimit
pub mod Limit
pub mod Idempotency
pub mod RequestId
pub mod AccessLog
pub mod Stub
pub mod Deps
pub mod Router
