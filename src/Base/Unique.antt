-- ===== src/Base/Unique.antt =====
-- Columns that are unique: at most one row of the table has the value.
use Prim.Native.Nat.{◌≤◌}
use mathlib.Core.Bool.{Bool, true, false, not, ◌&&◌}
use mathlib.Core.List.{List, [], ◌∷◌, ◌++◌}
use mathlib.Core.Option.{none, some}
use mathlib.Core.Logic.{inl, inr}
use fofu_backend.Base.Tests.{Bool-cases, some_inj}
use mathlib.Core.Path.{◌≡◌, refl}
use native.Mathlib.Omega.{arith}
use fofu_backend.Base.Lists.{All, count_if, count_if-append, any}
use fofu_backend.Base.Rows.{find, update_where, count_if-any}

module _ {ℓ} {A : Type ℓ} where
  any-update_none :
      (k p : A → Bool) (f : A → A) (xs : List A)
      → count_if k xs ≤ 0
      → ((y : A) → k (f y) ≡ false)
      → any k (update_where p f xs) ≡ false
  unfolding count_if any update_where
  any-update_none k p f [] none_there lost = refl
  any-update_none k p f (y ∷ xs) none_there lost = ground (arith, lost y, any-update_none k p f xs)

  -- No row passes a test that the only row passing it has lost.
  pub any-update_lost :
      (k p : A → Bool) (f : A → A) (xs : List A) {x : A}
      → find k xs ≡ some x
      → count_if k xs ≤ 1
      → p x ≡ true
      → ((y : A) → k (f y) ≡ false)
      → any k (update_where p f xs) ≡ false
  unfolding find count_if any update_where
  any-update_lost k p f [] found unique hit lost = refl
  any-update_lost k p f (y ∷ xs) {x} found unique hit lost =
      ground (arith, lost y, any-update_none k p f xs, any-update_lost k p f xs {x = x}, p x)

  -- Rows that pass a test after an update are no more than those that pass `q`.
  pub count_if-update-le :
      (k q t p : A → Bool) (f : A → A) (xs : List A)
      → ((y : A) → p y ≡ true → k (f y) ≡ true → q y ≡ true)
      → ((y : A) → t y ≡ false → k y ≡ true → q y ≡ true)
      → any t xs ≡ false
      → count_if k (update_where p f xs) ≤ count_if q xs
  unfolding count_if any update_where
  count_if-update-le k q t p f [] hit miss clear = omega arith
  count_if-update-le k q t p f (y ∷ xs) hit miss clear =
      ground (arith, hit y, miss y, count_if-update-le k q t p f xs hit miss)

  -- A row is added that has a value which none had.
  pub count_if-add-le :
      (k : A → Bool) (xs : List A) (y : A)
      → count_if k xs ≤ 1
      → (k y ≡ true → any k xs ≡ false)
      → count_if k (xs ++ y ∷ []) ≤ 1
  unfolding count_if
  count_if-add-le k xs y unique clear =
      ground (arith, count_if-append k xs (y ∷ []), count_if-any k xs)

  find-counted :
      (q p : A → Bool) (xs : List A) {x : A} → find q xs ≡ some x → p x ≡ true → 1 ≤ count_if p xs
  unfolding find count_if
  find-counted q p [] found hit = absurd (ground arith)
  find-counted q p (y ∷ xs) {x} found hit = ground (arith, find-counted q p xs {x = x})

  -- The row that a search finds is the only one with its value of a unique column.
  pub find_unique :
      (q p : A → Bool) (xs : List A) {x : A}
      → find q xs ≡ some x
      → p x ≡ true
      → count_if p xs ≤ 1
      → find p xs ≡ some x
  unfolding find count_if
  find_unique q p [] found hit unique = ground arith
  find_unique q p (y ∷ xs) {x} found hit unique =
      ground (arith, find_unique q p xs {x = x}, find-counted q p xs {x = x})

  -- An updated row is found by a test that no other row passes.
  pub find-updated :
      (k p t : A → Bool) (f : A → A) (xs : List A) {x : A}
      → find p xs ≡ some x
      → ((y : A) → p y ≡ true → k (f y) ≡ true)
      → ((y : A) → t y ≡ false → p y ≡ false → k y ≡ false)
      → any t xs ≡ false
      → find k (update_where p f xs) ≡ some (f x)
  unfolding find any update_where
  find-updated k p t f [] found hit miss clear = ground arith
  find-updated k p t f (y ∷ xs) {x} found hit miss clear =
      ground (arith, hit y, miss y, find-updated k p t f xs {x = x})

  pub any-none :
      (k t : A → Bool) (xs : List A)
      → ((y : A) → k y ≡ true → t y ≡ true)
      → any t xs ≡ false
      → any k xs ≡ false
  unfolding any
  any-none k t [] implied clear = refl
  any-none k t (y ∷ xs) implied clear = ground (arith, implied y, any-none k t xs)

  pub update_where-same :
      (p : A → Bool) (f : A → A) (xs : List A) → ((y : A) → f y ≡ y) → update_where p f xs ≡ xs
  unfolding update_where
  update_where-same p f [] same = refl
  update_where-same p f (y ∷ xs) same = ground (arith, same y, update_where-same p f xs same)

  count_if-zero-any : (k : A → Bool) (xs : List A) → count_if k xs ≤ 0 → any k xs ≡ false
  unfolding count_if any
  count_if-zero-any k [] h = refl
  count_if-zero-any k (y ∷ xs) h = ground (arith, count_if-zero-any k xs)

  count_if-implied-le :
      (k q : A → Bool) (xs : List A)
      → ((y : A) → k y ≡ true → q y ≡ true)
      → count_if k xs ≤ count_if q xs
  unfolding count_if
  count_if-implied-le k q [] implied = omega arith
  count_if-implied-le k q (y ∷ xs) implied =
      ground (arith, implied y, count_if-implied-le k q xs implied)

  -- The only row with a value of a unique column passes `r`, so that no row with it fails `r`.
  pub any-failing :
      (q r : A → Bool) (xs : List A)
      → count_if q xs ≤ 1
      → count_if (λ y. q y && r y) xs ≡ 1
      → any (λ y. q y && not (r y)) xs ≡ false
  unfolding count_if any
  any-failing q r [] unique one = refl
  any-failing q r (y ∷ xs) unique one = ground (
    arith,
    any-failing q r xs,
    count_if-zero-any q xs,
    any-none (λ z. q z && not (r z)) q xs (λ z e. ground (arith, e)),
    count_if-implied-le (λ z. q z && r z) q xs (λ z e. ground (arith, e)),
  )

  pub find-count_if :
      (k : A → Bool) (xs : List A) → count_if k xs ≡ 1 → (x : A) × (find k xs ≡ some x)
  unfolding count_if find
  find-count_if k [] one = absurd (omega (arith, one))
  find-count_if k (y ∷ xs) one = elim (Bool-cases (k y)) [
    | inl hit ↦ (y, rw hit refl)
    | inr miss ↦
        let (x, found) = find-count_if k xs (ground (arith, miss, one)) in
        (x, ground (arith, miss, found))
  ]

  pub find-some-any : (k : A → Bool) (xs : List A) {x : A} → find k xs ≡ some x → any k xs ≡ true
  unfolding find any
  find-some-any k [] found = absurd (ground arith)
  find-some-any k (y ∷ xs) {x} found = ground (arith, find-some-any k xs {x = x})

  -- No row passes a search that finds none.
  pub find-none-All : (k : A → Bool) (xs : List A) → find k xs ≡ none → All (λ y. k y ≡ false) xs
  unfolding find
  find-none-All k [] missing = tt
  find-none-All k (y ∷ xs) missing = elim (Bool-cases (k y)) [
    | inl hit ↦ absurd (ground (arith, missing, hit))
    | inr miss ↦ (miss, find-none-All k xs (rw miss at missing))
  ]

  none_passes :
      (k : A → Bool) (x : A) (xs : List A) → any k xs ≡ false → All (λ z. k z ≡ true → z ≡ x) xs
  unfolding any
  none_passes k x [] clear = tt
  none_passes k x (z ∷ xs) clear =
      (λ hit. absurd (ground (arith, hit, clear)), none_passes k x xs (ground (arith, clear)))

  -- The row that a search finds is the only one that passes it.
  pub find-only-All :
      (k : A → Bool) (xs : List A) {x : A}
      → find k xs ≡ some x
      → count_if k xs ≤ 1
      → All (λ y. k y ≡ true → y ≡ x) xs
  unfolding find count_if
  find-only-All k [] found unique = tt
  find-only-All k (y ∷ xs) {x} found unique = elim (Bool-cases (k y)) [
    | inl hit ↦ (
      λ _. some_inj (rw hit at found),
      none_passes k x xs (count_if-zero-any k xs (ground (arith, hit))),
    )
    | inr miss ↦ (
      λ hit. absurd (ground (arith, hit, miss)),
      find-only-All k xs (rw miss at found) (ground (arith, miss)),
    )
  ]
