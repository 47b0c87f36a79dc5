-- ===== src/Utils/Digits.antt =====
-- The decimal text of a number is read back as the number.
use Prim.Native.Char.{Char, code}
use Prim.Native.String.{char_at}
use fofu_backend.Base.{
  ℕ, zero, suc, ◌+◌, ◌-◌, ◌*◌, ◌/◌, ◌%◌, ◌≡◌, ◌<◌, refl, ap, ◌∙◌, String, Bool, true, false, not,
  ◌&&◌, ltb, ◌==◌, if-split, arith, holds_below, holds_below_lem,
}
use fofu_backend.Utils.Text.{decimal_on, decimal}
use fofu_backend.Utils.Locale.{is_blank}
use fofu_backend.Utils.Pagination.{lacks_equals, is_blank-cons}

-- The number that digits write, behind those that make up `v`.
unfoldable pub read_from : ℕ → String → ℕ
read_from v String.[] = v
read_from v (String.◌∷◌ c t) = read_from (v * 10 + (code c - 48)) t

abbrev is_digit_of : ℕ → Bool
is_digit_of d =
    (code (char_at "0123456789" d) - 48 == d) && not (code (char_at "0123456789" d) == b'=')

digits : (d : ℕ) → d < 10 → is_digit_of d ≡ true
unfolding holds_below
digits d below = holds_below_lem is_digit_of 10 d below refl

read-decimal_on :
    (fuel n : ℕ) (acc : String) → n < fuel → read_from 0 (decimal_on fuel n acc) ≡ read_from n acc
unfolding decimal_on read_from
read-decimal_on zero n acc enough = absurd (omega arith)
read-decimal_on (suc fuel) n acc enough =
    let d = digits (n % 10) (omega arith) in
    let value : code (char_at "0123456789" (n % 10)) - 48 ≡ n % 10 = ground (arith, d) in
    if-split (λ t. read_from 0 t ≡ read_from n acc) (ltb n 10)
      (λ last. ap (λ v. read_from v acc) (ground (arith, last, value)))
      (λ more.
        read-decimal_on fuel (n / 10) _ (ground (arith, more))
        ∙ ap (λ v. read_from v acc) (omega (arith, value)))

pub read-decimal : (n : ℕ) → read_from 0 (decimal n) ≡ n
unfolding decimal read_from
read-decimal n = read-decimal_on (suc n) n "" (omega arith)

lacks-decimal_on :
    (fuel n : ℕ) (acc : String)
    → lacks_equals acc ≡ true
    → lacks_equals (decimal_on fuel n acc) ≡ true
unfolding decimal_on lacks_equals
lacks-decimal_on zero n acc h = h
lacks-decimal_on (suc fuel) n acc h =
    let d = digits (n % 10) (omega arith) in
    let out = String.◌∷◌ (char_at "0123456789" (n % 10)) acc in
    let now : lacks_equals out ≡ true = ground (arith, d, h) in
    if-split (λ t. lacks_equals t ≡ true) (ltb n 10) (λ _. now)
      (λ _. lacks-decimal_on fuel (n / 10) out now)

pub lacks-decimal : (n : ℕ) → lacks_equals (decimal n) ≡ true
unfolding decimal lacks_equals
lacks-decimal n = lacks-decimal_on (suc n) n "" refl

there-decimal_on :
    (fuel n : ℕ) (c : Char) (acc : String) → is_blank (decimal_on fuel n (String.◌∷◌ c acc)) ≡ false
unfolding decimal_on
there-decimal_on zero n c acc = is_blank-cons c acc
there-decimal_on (suc fuel) n c acc =
    if-split (λ t. is_blank t ≡ false) (ltb n 10) (λ _. is_blank-cons _ _)
      (λ _. there-decimal_on fuel (n / 10) _ _)

pub there-decimal : (n : ℕ) → is_blank (decimal n) ≡ false
unfolding decimal decimal_on
there-decimal n =
    if-split (λ t. is_blank t ≡ false) (ltb n 10) (λ _. is_blank-cons _ _)
      (λ _. there-decimal_on n (n / 10) _ _)
