-- ===== src/Auth.antt =====
-- internal/auth: who may call, with what credential, how often, and on which database.
pub mod RateLimiter
pub mod Users
pub mod Tokens
pub mod Access
pub mod Validator
pub mod ClientIp
pub mod Middleware
