-- ===== src/Base/Slices.antt =====
-- Parts of lists, and lists backwards.
use Prim.Native.Nat.{ℕ, zero, suc, ◌+◌, ◌-◌, ◌<◌}
use mathlib.Core.Bool.{true, false}
use mathlib.Core.List.{List, [], ◌∷◌, ◌++◌}
use mathlib.Core.Path.{◌≡◌, refl, sym, ap, ◌∙◌}
use native.Mathlib.Omega.{arith}
use fofu_backend.Base.Tests.{ltb}
use fofu_backend.Base.Lists.{length, take}

-- `offset`
abbrev pub drop {ℓ} : {A : Type ℓ} → ℕ → List A → List A
drop zero xs = xs
drop (suc n) [] = []
drop (suc n) (x ∷ xs) = drop n xs

abbrev pub reverse {ℓ} : {A : Type ℓ} → List A → List A
reverse [] = []
reverse (x ∷ xs) = reverse xs ++ x ∷ []

module _ {ℓ} {A : Type ℓ} where
  pub append_nil : (xs : List A) → xs ++ [] ≡ xs
  append_nil [] = refl
  append_nil (x ∷ xs) = ap (λ ys. x ∷ ys) (append_nil xs)

  pub append_assoc : (xs ys zs : List A) → (xs ++ ys) ++ zs ≡ xs ++ (ys ++ zs)
  append_assoc [] ys zs = refl
  append_assoc (x ∷ xs) ys zs = ap (λ ts. x ∷ ts) (append_assoc xs ys zs)

  pub reverse_split :
      (n : ℕ) (xs : List A) → reverse (drop n xs) ++ reverse (take n xs) ≡ reverse xs
  reverse_split zero xs = append_nil (reverse xs)
  reverse_split (suc n) [] = refl
  reverse_split (suc n) (x ∷ xs) =
      sym (append_assoc (reverse (drop n xs)) (reverse (take n xs)) (x ∷ []))
      ∙ ap (λ ys. ys ++ x ∷ []) (reverse_split n xs)

  pub take-take : (n : ℕ) (xs : List A) → take n (take (suc n) xs) ≡ take n xs
  take-take zero xs = refl
  take-take (suc n) [] = refl
  take-take (suc n) (x ∷ xs) = ap (λ ys. x ∷ ys) (take-take n xs)

  pub take_all : (n : ℕ) (xs : List A) → ltb n (length (take (suc n) xs)) ≡ false → take n xs ≡ xs
  take_all zero [] h = refl
  take_all (suc n) [] h = refl
  take_all zero (x ∷ xs) h = absurd (ground (arith, h))
  take_all (suc n) (x ∷ xs) h = ap (λ ys. x ∷ ys) (take_all n xs (ground (arith, h)))

  pub length-take_more :
      (n : ℕ) (xs : List A) → ltb n (length (take (suc n) xs)) ≡ true → n < length xs
  length-take_more n [] h = absurd (ground (arith, h))
  length-take_more zero (x ∷ xs) h = omega arith
  length-take_more (suc n) (x ∷ xs) h = omega (arith, length-take_more n xs (ground (arith, h)))

  pub length-drop : (n : ℕ) (xs : List A) → length (drop n xs) ≡ length xs - n
  length-drop zero xs = omega arith
  length-drop (suc n) [] = omega arith
  length-drop (suc n) (x ∷ xs) = omega (arith, length-drop n xs)

  pub drop-drop : (m n k : ℕ) (xs : List A) → k ≡ m + n → drop k xs ≡ drop n (drop m xs)
  drop-drop zero n k xs e = ap (λ i. drop i xs) (omega (arith, e))
  drop-drop (suc m) n zero xs e = absurd (omega (arith, e))
  drop-drop (suc m) zero (suc k) [] e = refl
  drop-drop (suc m) (suc n) (suc k) [] e = refl
  drop-drop (suc m) n (suc k) (x ∷ xs) e = drop-drop m n k xs (omega (arith, e))
