-- ===== src/RateLimit/Window.antt =====
-- The buckets of app/rate_limit.py against a specification that keeps every admitted request.
use fofu_backend.Base.{
  ℕ, Time, ◌+◌, ◌*◌, ◌≤◌, String, ◌≡◌, refl, ◌&&◌, List, [], ◌∷◌, ◌++◌, arith, length, count_if,
  count_if-append, ltb, leb, str_eq, eq_iff, if◌then◌else◌, All, All-append, if-split,
}
use fofu_backend.Push.Rows.{second}
use fofu_backend.RateLimit.Bucket.{
  SlidingWindowLimiter, Outcome, admitted, limited, prune, put_bucket, check, outcomes,
}

-- The admitted requests of a key that are not older than the window at time `t`.
pub recent : ℕ → String → Time → List (String × Time) → ℕ
recent window key t [] = 0
recent window key t ((k, e) ∷ history) =
    (if str_eq key k && ltb t (e + window) then 1 else 0) + recent window key t history

-- The specification: a request is admitted while fewer than `n` of its key are recent. It forgets
-- nothing, and `history` lists what was admitted, newest first. `window` is in seconds.
pub sliding_window : ℕ → ℕ → List (String × Time) → List (String × Time) → List Outcome
sliding_window n window history [] = []
sliding_window n window history ((key, now) ∷ rest) =
    let others = sliding_window n window history rest in
    let more = sliding_window n window ((key, now) ∷ history) rest in
    if leb n (recent (window * second) key now history)
    then limited window ∷ others
    else admitted ∷ more

-- The readings do not go back in the order in which the checks get the lock.
abbrev pub IsMonotone : Time → List (String × Time) → Type 0
IsMonotone last [] = Unit
IsMonotone last ((key, now) ∷ rest) = (last ≤ now) × IsMonotone now rest

abbrev IsSorted : Time → List Time → Type 0
IsSorted last [] = Unit
IsSorted last (e ∷ bucket) = (e ≤ last) × All (λ f. e ≤ f) bucket × IsSorted last bucket

live : ℕ → Time → List Time → ℕ
live window t = count_if (λ e. ltb t (e + window))

live-length :
    (window now last e : ℕ) (bucket : List Time)
    → now + 1 ≤ e + window
    → All (λ f. e ≤ f) bucket
    → live window now bucket ≡ length bucket
unfolding live count_if
live-length window now last e [] h above = refl
live-length window now last e (f ∷ bucket) h above =
    ground (arith, live-length window now last e bucket h above.1)

-- In a sorted bucket pruning leaves exactly the events that are recent.
length-prune :
    (window now last : ℕ) (bucket : List Time)
    → IsSorted last bucket
    → length (prune window now bucket) ≡ live window now bucket
unfolding prune live count_if
length-prune window now last [] h = refl
length-prune window now last (e ∷ bucket) h =
    ground (arith, length-prune window now last bucket h.2, live-length window now last e bucket)

-- Pruning now does not change what is recent now or later.
live-prune :
    (window now t : ℕ) (bucket : List Time)
    → now ≤ t
    → live window t (prune window now bucket) ≡ live window t bucket
unfolding prune live count_if
live-prune window now t [] h = refl
live-prune window now t (e ∷ bucket) h = ground (arith, live-prune window now t bucket h)

All-prune :
    (window now e : ℕ) (bucket : List Time)
    → All (λ f. e ≤ f) bucket
    → All (λ f. e ≤ f) (prune window now bucket)
unfolding prune
All-prune window now e [] h = tt
All-prune window now e (f ∷ bucket) h =
    if-split (All (λ f. e ≤ f)) (leb (f + window) now) (λ _. All-prune window now e bucket h.1)
      (λ _. h)

prune-IsSorted :
    (window now last : ℕ) (bucket : List Time)
    → IsSorted last bucket
    → IsSorted last (prune window now bucket)
unfolding prune
prune-IsSorted window now last [] h = tt
prune-IsSorted window now last (e ∷ bucket) h =
    if-split (IsSorted last) (leb (e + window) now) (λ _. prune-IsSorted window now last bucket h.2)
      (λ _. h)

-- The clock moves on, and the new event is the latest.
IsSorted-later :
    (last now : ℕ) (bucket : List Time) → last ≤ now → IsSorted last bucket → IsSorted now bucket
IsSorted-later last now [] le h = tt
IsSorted-later last now (e ∷ bucket) le h =
    (omega arith, h.1, IsSorted-later last now bucket le h.2)

push-IsSorted :
    (last now : ℕ) (bucket : List Time)
    → last ≤ now
    → IsSorted last bucket
    → IsSorted now (bucket ++ now ∷ [])
push-IsSorted last now [] le h = (omega arith, tt, tt)
push-IsSorted last now (e ∷ bucket) le h = (
  omega arith,
  All-append (λ f. e ≤ f) bucket (now ∷ []) h.1 (omega arith),
  push-IsSorted last now bucket le h.2,
)

-- What ties the buckets at the time of the last check to the full history.
record Tracks (n window : ℕ) (last : Time) (history : List (String × Time))
    (l : SlidingWindowLimiter) : Type 0 where
  limit : l.requests ≡ n
  width : l.window_seconds ≡ window
  sorted : (key : String) → IsSorted last (l.events key)
  same :
      (key : String) (t : Time)
      → last ≤ t
      → live (window * second) t (l.events key) ≡ recent (window * second) key t history

module _ {n window : ℕ} {last : Time} {history : List (String × Time)} {l : SlidingWindowLimiter}
    (tracks : Tracks n window last history l) (key : String) (now : Time) (le : last ≤ now) where
  bucket_length :
      length (prune (l.window_seconds * second) now (l.events key))
      ≡ recent (window * second) key now history
  bucket_length =
      rw (length-prune (l.window_seconds * second) now last (l.events key) (tracks.sorted key))
        (rw tracks.width (tracks.same key now le))

  limited-Tracks :
      Tracks n window now history
        (put_bucket l key (prune (l.window_seconds * second) now (l.events key)))
  limited-Tracks = record {
    limit = tracks.limit;
    width = tracks.width;
    sorted = λ k.
        if-split (IsSorted now) (str_eq key k)
          (λ _. IsSorted-later last now _ le (prune-IsSorted _ now last _ (tracks.sorted key)))
          (λ _. IsSorted-later last now _ le (tracks.sorted k));
    same = λ k t h. ground (
      arith,
      eq_iff key k,
      tracks.width,
      tracks.same k t,
      live-prune (window * second) now t (l.events key) h,
    );
  }

  admitted-Tracks :
      Tracks n window now
        ((key, now) ∷ history)
        (put_bucket l key (prune (l.window_seconds * second) now (l.events key) ++ now ∷ []))
  unfolding recent live count_if
  admitted-Tracks = record {
    limit = tracks.limit;
    width = tracks.width;
    sorted = λ k.
        if-split (IsSorted now) (str_eq key k)
          (λ _. push-IsSorted last now _ le (prune-IsSorted _ now last _ (tracks.sorted key)))
          (λ _. IsSorted-later last now _ le (tracks.sorted k));
    same = λ k t h. ground (
      arith,
      eq_iff key k,
      eq_iff k key,
      tracks.width,
      tracks.same k t,
      live-prune (window * second) now t (l.events key) h,
      count_if-append (λ e. ltb t (e + window * second))
          (prune (window * second) now (l.events key)) (now ∷ []),
    );
  }

outcomes-Tracks :
    (checks : List (String × Time)) {n window : ℕ} {last : Time} {history : List (String × Time)}
    {l : SlidingWindowLimiter}
    → Tracks n window last history l
    → IsMonotone last checks
    → outcomes l checks ≡ sliding_window n window history checks
unfolding outcomes sliding_window check
outcomes-Tracks [] tracks h = refl
outcomes-Tracks ((key, now) ∷ rest) {n} {window} {history = history} tracks (le, h) = ground (
  arith,
  bucket_length tracks key now le,
  tracks.limit,
  tracks.width,
  outcomes-Tracks rest (limited-Tracks tracks key now le) h,
  outcomes-Tracks rest (admitted-Tracks tracks key now le) h,
)

-- A limiter that has seen no request.
abbrev pub fresh : ℕ → ℕ → SlidingWindowLimiter
fresh n window = record { requests = n; window_seconds = window; events = λ key. [] }

fresh-Tracks : (n window : ℕ) → Tracks n window 0 [] (fresh n window)
unfolding live recent count_if
fresh-Tracks n window = record {
  limit = refl;
  width = refl;
  sorted = λ key. tt;
  same = λ key t h. refl;
}

-- While the readings do not go back in the order of the lock, a new limiter answers every sequence of checks as the
-- specification does, which keeps every admitted request and counts the recent ones.
pub outcomes-fresh :
    (n window : ℕ) (checks : List (String × Time))
    → IsMonotone 0 checks
    → outcomes (fresh n window) checks ≡ sliding_window n window [] checks
outcomes-fresh n window checks h = outcomes-Tracks checks (fresh-Tracks n window) h

-- The requests of a key with a time in the window that ends at `t`, among those admitted.
unfoldable pub admitted_in : ℕ → String → Time → List (String × Time) → List Outcome → ℕ
admitted_in window key t ((k, e) ∷ checks) (admitted ∷ outs) =
    (if str_eq key k && (ltb t (e + window) && leb e t) then 1 else 0)
    + admitted_in window key t checks outs
admitted_in window key t ((k, e) ∷ checks) (limited w ∷ outs) = admitted_in window key t checks outs
admitted_in window key t _ _ = 0

past : ℕ → String → Time → List (String × Time) → ℕ
past window key t [] = 0
past window key t ((k, e) ∷ history) =
    (if str_eq key k && (ltb t (e + window) && leb e t) then 1 else 0) + past window key t history

past-le-recent :
    (window : ℕ) (key : String) (now t : Time) (history : List (String × Time))
    → now ≤ t
    → past window key t history ≤ recent window key now history
unfolding past recent
past-le-recent window key now t [] h = omega arith
past-le-recent window key now t ((k, e) ∷ history) h =
    ground (arith, past-le-recent window key now t history h)

sliding_window-bounded :
    (n window : ℕ) (key : String) (t : Time) (checks history : List (String × Time))
    → past (window * second) key t history ≤ n
    → past (window * second) key t history
        + admitted_in (window * second) key t checks (sliding_window n window history checks)
      ≤ n
unfolding past admitted_in sliding_window
sliding_window-bounded n window key t [] history h = omega arith
sliding_window-bounded n window key t ((k, e) ∷ checks) history h = ground (
  arith,
  eq_iff key k,
  past-le-recent (window * second) key e t history,
  sliding_window-bounded n window key t checks history h,
  sliding_window-bounded n window key t checks ((k, e) ∷ history),
)

-- Whatever the checks, as long as their readings do not go back in the order of the lock: of one key at most `n` requests
-- are admitted in any window, the half-open interval (t - window, t].
pub admitted_in-le :
    (n window : ℕ) (checks : List (String × Time)) (key : String) (t : Time)
    → IsMonotone 0 checks
    → admitted_in (window * second) key t checks (outcomes (fresh n window) checks) ≤ n
admitted_in-le n window checks key t h =
    rw (outcomes-fresh n window checks h)
      (unfold past in omega (arith, sliding_window-bounded n window key t checks []))
