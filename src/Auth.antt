-- ===== src/Auth.antt =====
-- internal/auth: tokens, API keys, and the endpoints that hand them out.
pub mod Errors
pub mod Token
pub mod ApiKey
pub mod Rows
pub mod Store
pub mod Handlers
