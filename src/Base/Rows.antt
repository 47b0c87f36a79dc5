-- ===== src/Base/Rows.antt =====
-- A database table as the list of its rows, and what the statements of the program do to it.
use Prim.Native.Nat.{suc, ◌≤◌}
use mathlib.Core.Bool.{Bool, true, false}
use mathlib.Core.List.{List, [], ◌∷◌, ◌++◌}
use mathlib.Core.Option.{Option, none, some}
use mathlib.Core.Logic.{inl, inr}
use mathlib.Core.Path.{◌≡◌, refl, ap, subst}
use native.Mathlib.Omega.{arith}
use fofu_backend.Base.Tests.{if◌then◌else◌, if-split, Bool-cases, some_inj}
use fofu_backend.Base.Lists.{All, length, count_if, any}

module _ {ℓ} {A : Type ℓ} where
  -- SELECT ... WHERE
  unfoldable pub select : (A → Bool) → List A → List A
  select p [] = []
  select p (x ∷ xs) = let rest = select p xs in if p x then x ∷ rest else rest

  -- The first row that passes the test.
  unfoldable pub find : (A → Bool) → List A → Option A
  find p [] = none
  find p (x ∷ xs) = if p x then some x else find p xs

  -- UPDATE ... WHERE
  unfoldable pub update_where : (A → Bool) → (A → A) → List A → List A
  update_where p f [] = []
  update_where p f (x ∷ xs) = (if p x then f x else x) ∷ update_where p f xs

  -- DELETE ... WHERE
  unfoldable pub delete_where : (A → Bool) → List A → List A
  delete_where p [] = []
  delete_where p (x ∷ xs) = let rest = delete_where p xs in if p x then rest else x ∷ rest

  pub length-update_where :
      (p : A → Bool) (f : A → A) (xs : List A) → length (update_where p f xs) ≡ length xs
  unfolding update_where
  length-update_where p f [] = refl
  length-update_where p f (x ∷ xs) = ap suc (length-update_where p f xs)

  pub length-select : (p : A → Bool) (xs : List A) → length (select p xs) ≡ count_if p xs
  unfolding select count_if
  length-select p [] = refl
  length-select p (x ∷ xs) = ground (arith, length-select p xs)

  pub length-select-le : (p : A → Bool) (xs : List A) → length (select p xs) ≤ length xs
  unfolding select
  length-select-le p [] = omega arith
  length-select-le p (x ∷ xs) = ground (arith, length-select-le p xs)

  -- A row that is found passes the test.
  pub find-passes : (p : A → Bool) (xs : List A) {x : A} → find p xs ≡ some x → p x ≡ true
  unfolding find
  find-passes p [] h = ground arith
  find-passes p (y ∷ xs) {x} h = ground (arith, find-passes p xs {x = x})

  pub find-delete_where :
      (k p : A → Bool) (xs : List A) → find k xs ≡ none → find k (delete_where p xs) ≡ none
  unfolding find delete_where
  find-delete_where k p [] h = refl
  find-delete_where k p (x ∷ xs) h = ground (arith, find-delete_where k p xs)

  pub find-append :
      (k : A → Bool) (xs ys : List A) {x : A} → find k xs ≡ some x → find k (xs ++ ys) ≡ some x
  unfolding find
  find-append k [] ys h = ground arith
  find-append k (y ∷ xs) ys {x} h = ground (arith, find-append k xs ys {x = x})

  -- An update that leaves the test of a search alone is seen by the search.
  pub find-update_where :
      (k p : A → Bool) (f : A → A) (xs : List A)
      → ((x : A) → k (f x) ≡ k x)
      → find k (update_where p f xs)
        ≡ elim (find k xs) [ none ↦ none | some x ↦ some (if p x then f x else x) ]
  unfolding find update_where
  find-update_where k p f [] keep = refl
  find-update_where k p f (x ∷ xs) keep = ground (arith, keep x, find-update_where k p f xs keep)

  -- A row that none before it hides is found at the end.
  pub find-appended :
      (k : A → Bool) (xs : List A) (y : A)
      → find k xs ≡ none
      → k y ≡ true
      → find k (xs ++ y ∷ []) ≡ some y
  unfolding find
  find-appended k [] y e h = ground arith
  find-appended k (x ∷ xs) y e h = ground (arith, find-appended k xs y)

  pub find-any : (k : A → Bool) (xs : List A) → any k xs ≡ false → find k xs ≡ none
  unfolding find any
  find-any k [] h = refl
  find-any k (x ∷ xs) h = ground (arith, find-any k xs)

  pub count_if-any : (k : A → Bool) (xs : List A) → any k xs ≡ false → count_if k xs ≡ 0
  unfolding count_if any
  count_if-any k [] h = refl
  count_if-any k (x ∷ xs) h = ground (arith, count_if-any k xs)

module _ {ℓ κ} {A : Type ℓ} (P : A → Type κ) where
  pub All-update_where :
      (p : A → Bool) (f : A → A) (xs : List A)
      → ((x : A) → P x → p x ≡ true → P (f x))
      → All P xs
      → All P (update_where p f xs)
  unfolding update_where
  All-update_where p f [] keep h = tt
  All-update_where p f (x ∷ xs) keep h =
      (if-split P (p x) (keep x h.0) (λ _. h.0), All-update_where p f xs keep h.1)

  -- What every updated row and every row that is left out satisfies holds of all rows.
  pub All-after_update :
      (p : A → Bool) (f : A → A) (xs : List A)
      → ((x : A) → p x ≡ true → P (f x))
      → ((x : A) → p x ≡ false → P x)
      → All P (update_where p f xs)
  unfolding update_where
  All-after_update p f [] hit miss = tt
  All-after_update p f (x ∷ xs) hit miss =
      (if-split P (p x) (hit x) (miss x), All-after_update p f xs hit miss)

  pub All-delete_where : (p : A → Bool) (xs : List A) → All P xs → All P (delete_where p xs)
  unfolding delete_where
  All-delete_where p [] h = tt
  All-delete_where p (x ∷ xs) h =
      let rest = All-delete_where p xs h.1 in if-split (All P) (p x) (λ _. rest) (λ _. (h.0, rest))

  pub All-select : (p : A → Bool) (xs : List A) → ((x : A) → p x ≡ true → P x) → All P (select p xs)
  unfolding select
  All-select p [] h = tt
  All-select p (x ∷ xs) h =
      let rest = All-select p xs h in if-split (All P) (p x) (λ e. (h x e, rest)) (λ _. rest)

  -- What holds of all rows holds of one that is found.
  pub All-find : (p : A → Bool) (xs : List A) {x : A} → All P xs → find p xs ≡ some x → P x
  unfolding find
  All-find p [] h e = absurd (ground arith)
  All-find p (y ∷ xs) {x} h e = elim (Bool-cases (p y)) [
    | inl hit ↦ subst P (some_inj (rw hit at e)) h.0
    | inr miss ↦ All-find p xs h.1 (rw miss at e)
  ]

module _ {ℓ κ μ} {A : Type ℓ} (P : A → Type κ) (Q : A → Type μ) where
  -- The same, where each row is known to satisfy `Q` besides.
  pub All-update_where_given :
      (p : A → Bool) (f : A → A) (xs : List A)
      → ((x : A) → P x → Q x → p x ≡ true → P (f x))
      → All P xs
      → All Q xs
      → All P (update_where p f xs)
  unfolding update_where
  All-update_where_given p f [] keep h k = tt
  All-update_where_given p f (x ∷ xs) keep h k =
      (if-split P (p x) (keep x h.0 k.0) (λ _. h.0), All-update_where_given p f xs keep h.1 k.1)

  pub All-after_update_given :
      (p : A → Bool) (f : A → A) (xs : List A)
      → ((x : A) → p x ≡ true → P (f x))
      → ((x : A) → Q x → p x ≡ false → P x)
      → All Q xs
      → All P (update_where p f xs)
  unfolding update_where
  All-after_update_given p f [] hit miss k = tt
  All-after_update_given p f (x ∷ xs) hit miss k =
      (if-split P (p x) (hit x) (miss x k.0), All-after_update_given p f xs hit miss k.1)
