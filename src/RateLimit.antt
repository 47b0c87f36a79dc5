-- ===== src/RateLimit.antt =====
-- app/rate_limit.py: the in-process limiter, its buckets and the outcome of each check.
-- `time.monotonic()` is a reading in ticks, and the window is given in the same unit. A lock makes
-- each check one step, so concurrent requests are a sequence of checks.
pub mod Bucket
pub mod Window
mod Examples
pub use Bucket.{SlidingWindowLimiter, Outcome, admitted, limited}
