-- ===== src/Limiter.antt =====
-- execution_bridge/rate_limiter.py: the token bucket that every call of a broker passes.
pub mod Bucket
pub mod Bounds
mod Tests
