-- ===== src/Base/Members.antt =====
-- The rows of a table as the members of its list: what a query returns stands in the table.
use mathlib.Core.Bool.{Bool, true}
use mathlib.Core.List.{List, [], ◌∷◌, Mem, mem-cons_self, mem-cons_of_mem}
use mathlib.Core.Logic.{inl, inr}
use mathlib.Core.Option.{some}
use mathlib.Core.Path.{◌≡◌, subst}
use native.Mathlib.Omega.{arith}
use fofu_backend.Base.Tests.{Bool-cases, if-split, some_inj}
use fofu_backend.Base.Lists.{All, any}
use fofu_backend.Base.Rows.{find, select}

module _ {ℓ} {A : Type ℓ} where
  pub find-Mem : (p : A → Bool) (xs : List A) {x : A} → find p xs ≡ some x → Mem x xs
  unfolding find
  find-Mem p [] found = absurd (ground arith)
  find-Mem p (y ∷ xs) {x} found = elim (Bool-cases (p y)) [
    | inl hit ↦ subst (λ z. Mem z (y ∷ xs)) (some_inj (rw hit at found)) mem-cons_self
    | inr miss ↦ mem-cons_of_mem y (find-Mem p xs (rw miss at found))
  ]

  -- The row that makes `any` true.
  pub any-Mem : (p : A → Bool) (xs : List A) → any p xs ≡ true → (x : A) × Mem x xs × (p x ≡ true)
  unfolding any
  any-Mem p [] hit = absurd (ground arith)
  any-Mem p (y ∷ xs) hit = elim (Bool-cases (p y)) [
    | inl here ↦ (y, mem-cons_self, here)
    | inr miss ↦
        let (x, there, passes) = any-Mem p xs (ground (arith, hit, miss)) in
        (x, mem-cons_of_mem y there, passes)
  ]

module _ {ℓ κ} {A : Type ℓ} (P : A → Type κ) where
  pub All-Mem : (xs : List A) → ((x : A) → Mem x xs → P x) → All P xs
  All-Mem [] f = tt
  All-Mem (x ∷ xs) f = (f x mem-cons_self, All-Mem xs (λ y m. f y (mem-cons_of_mem x m)))

  pub All-select_Mem :
      (p : A → Bool) (xs : List A) → ((x : A) → Mem x xs → p x ≡ true → P x) → All P (select p xs)
  unfolding select
  All-select_Mem p [] f = tt
  All-select_Mem p (x ∷ xs) f =
      let rest = All-select_Mem p xs (λ y m. f y (mem-cons_of_mem x m)) in
      if-split (All P) (p x) (λ e. (f x mem-cons_self e, rest)) (λ _. rest)
