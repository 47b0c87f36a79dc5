-- ===== src/RateLimit/Examples.antt =====
-- The limiter of app/rate_limit.py at concrete inputs.
use fofu_backend.Base.{Time, ◌*◌, ◌≤◌, String, ◌≡◌, refl, List, [], ◌∷◌, arith}
use fofu_backend.Push.Rows.{second}
use fofu_backend.RateLimit.Bucket.{admitted, limited, outcomes, check, prune}
use fofu_backend.RateLimit.Window.{
  fresh, outcomes-fresh, admitted_in, admitted_in-le, sliding_window,
}

abbrev calls : List (String × Time)
calls =
    ("a", 1 * second)
    ∷ ("a", 2 * second)
    ∷ ("b", 2 * second)
    ∷ ("a", 3 * second)
    ∷ ("a", 11 * second)
    ∷ ("a", 11 * second)
    ∷ []

-- The event at one second leaves the window of ten seconds at eleven.
outcomes-calls :
    outcomes (fresh 2 10) calls
    ≡ admitted ∷ admitted ∷ admitted ∷ limited 10 ∷ admitted ∷ limited 10 ∷ []
unfolding outcomes check prune
outcomes-calls = refl

outcomes-fresh_example : outcomes (fresh 2 10) calls ≡ sliding_window 2 10 [] calls
outcomes-fresh_example = outcomes-fresh 2 10 calls (omega arith)

admitted_in-le_example :
    admitted_in (10 * second) "a" (11 * second) calls (outcomes (fresh 2 10) calls) ≤ 2
admitted_in-le_example = admitted_in-le 2 10 calls "a" (11 * second) (omega arith)
