-- ===== src/Limit.antt =====
-- server/web/filter/ratelimit: the token bucket of token_bucket.go and the limiter of limiter.go.
mod Examples
pub mod Bucket
pub mod Limiter
