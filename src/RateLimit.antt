-- ===== src/RateLimit.antt =====
-- Admission control (backend/services/rate_limit): limits kept as counters in Redis.
pub mod Redis
pub mod Limiter
pub mod Concurrency
pub mod Quota
pub mod Admission
pub mod Keys
pub mod Fake
mod Examples
