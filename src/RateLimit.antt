-- ===== src/RateLimit.antt =====
-- The token bucket and its variant by key, pkg/ratelimit.
pub mod Float
pub mod Limiter
pub mod Keyed
mod Tests
