-- ===== src/RateLimiter.antt =====
-- rate_limiter.py: the sliding windows in Redis, the decorator that enforces them, and the
-- administration of overrides and blocked addresses.
pub mod Limits
pub mod Caller
pub mod Bucket
pub mod Decorator
pub mod Admin
pub mod Blocking
mod Examples
