-- ===== src/RateLimit.antt =====
-- internal/ratelimit: token buckets by caller and route.
pub mod Keys
pub mod Rates
pub mod Store
pub mod Memory
pub mod Middleware
