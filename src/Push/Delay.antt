-- ===== src/Push/Delay.antt =====
-- The delay before a delivery of app/services/push.py is tried again.
use fofu_backend.Base.{
  ℕ, ◌+◌, ◌*◌, ◌^◌, ◌≤◌, ◌<◌, min, ◌≡◌, refl, true, ◌&&◌, ◌||◌, none, arith, leb, holds_below,
  holds_below_lem,
}
use fofu_backend.Push.Rows.{second}
use fofu_backend.Push.Claim.{ClaimedDelivery}
use fofu_backend.Push.Finish.{ApnsResult, retry_delay_seconds, jitter}

-- 2 ^ n lies between 2 and 1024 for an attempt's exponent.
power_table : holds_below (λ n. leb n 0 || (leb 2 (2 ^ n) && leb (2 ^ n) 1024)) 11 ≡ true
unfolding holds_below
power_table = refl

power_bounds : (n : ℕ) → 1 ≤ n → n < 11 → (2 ≤ 2 ^ n) × (2 ^ n ≤ 1024)
power_bounds n h lt = ground (
  arith,
  holds_below_lem (λ n. leb n 0 || (leb 2 (2 ^ n) && leb (2 ^ n) 1024)) 11 n lt power_table,
)

product_bound : (p k : ℕ) → p ≤ 1024 → k < 1000 → p * k ≤ 1024 * 999
product_bound p k h lt = grind arith

delay_bounds :
    (p k : ℕ)
    → 2 ≤ p
    → p ≤ 1024
    → k < 1000
    → (min (min p 1800 * (4000 + k) * 250) (3600 * second) ≡ p * (4000 + k) * 250)
      × (2 * second ≤ p * (4000 + k) * 250)
      × (p * (4000 + k) * 250 ≤ 1280 * second)
delay_bounds p k low high lt =
    let uncapped : min p 1800 ≡ p = omega arith in
    rw uncapped (omega (arith, product_bound p k high lt))

-- Where Apple names no time, the delay of an attempt is two seconds at least and 1280 at most: it
-- doubles with the attempts, with up to a quarter more, and the two caps of 1800 and 3600 seconds
-- in the code are never met.
pub retry_delay_bounds :
    (c : ClaimedDelivery) (result : ApnsResult)
    → 1 ≤ c.attempt_count
    → result.retry_after_seconds ≡ none
    → (retry_delay_seconds c result ≡ 2 ^ min c.attempt_count 10 * (4000 + jitter c.id) * 250)
      × (2 * second ≤ retry_delay_seconds c result)
      × (retry_delay_seconds c result ≤ 1280 * second)
unfolding retry_delay_seconds
retry_delay_bounds c result h none_given =
    let bounds = power_bounds (min c.attempt_count 10) (omega arith) (omega arith) in
    let delay =
      delay_bounds (2 ^ min c.attempt_count 10) (jitter c.id) bounds.0 bounds.1 (omega arith) in
    rw none_given (delay.0, rw delay.0 delay.1, rw delay.0 delay.2)
