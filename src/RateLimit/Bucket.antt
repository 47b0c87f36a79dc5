-- ===== src/RateLimit/Bucket.antt =====
-- app/rate_limit.py: `SlidingWindowLimiter.check`. A reading of the clock is in microseconds, and `second`
-- takes the window's seconds to them.
use fofu_backend.Base.{
  ℕ, Time, Option, or_else, ◌+◌, ◌*◌, String, List, [], ◌∷◌, ◌++◌, length, leb, str_eq,
  if◌then◌else◌,
}
use fofu_backend.Push.Rows.{second}

pub record SlidingWindowLimiter : Type 0 where
  pub requests : ℕ
  pub window_seconds : ℕ
  -- `defaultdict(deque)`: a key that was never seen has the empty bucket. Oldest event first.
  pub events : String → List Time

-- `window` is in microseconds.
-- `while bucket and bucket[0] <= cutoff: bucket.popleft()`, where cutoff = now - window_seconds
unfoldable pub prune : ℕ → Time → List Time → List Time
prune window now [] = []
prune window now (e ∷ bucket) =
    let rest = prune window now bucket in if leb (e + window) now then rest else e ∷ bucket

-- `limited` is the 429 response with its Retry-After header.
pub data Outcome : Type 0 where
  admitted : Outcome
  limited : ℕ → Outcome

abbrev pub put_bucket : SlidingWindowLimiter → String → List Time → SlidingWindowLimiter
put_bucket l key bucket = record l { events = λ k. if str_eq key k then bucket else l.events k }

-- The pruned bucket is stored whether or not the check raises.
unfoldable pub check : SlidingWindowLimiter → String → Time → SlidingWindowLimiter × Outcome
check l key now =
    let bucket = prune (l.window_seconds * second) now (l.events key) in
    if leb l.requests (length bucket)
    then (put_bucket l key bucket, limited l.window_seconds)
    else (put_bucket l key (bucket ++ now ∷ []), admitted)

-- The outcomes of a sequence of checks in the order in which they get the lock, each a key and the
-- clock's reading, which is taken before the lock.
unfoldable pub outcomes : SlidingWindowLimiter → List (String × Time) → List Outcome
outcomes l [] = []
outcomes l ((key, now) ∷ rest) = let (l', outcome) = check l key now in outcome ∷ outcomes l' rest

-- `enforce_qr_rate_limit` and `enforce_google_auth_rate_limit`, each with its own limiter: the key
-- is the peer address, not a header that the client chooses.
enforce_rate_limit : SlidingWindowLimiter → Option String → Time → SlidingWindowLimiter × Outcome
unfolding check
enforce_rate_limit l client now = check l (or_else client "unknown") now
