-- ===== src/Utils/Text.antt =====
-- The text operations of the language that the program uses.
use Prim.Native.Char.{Char, code}
use Prim.Native.String.{char_at}
use text.Mathlib.Text.{starts_with}
use fofu_backend.Base.{
  ℕ, zero, suc, ◌-◌, ◌/◌, ◌%◌, String, Bool, ◌&&◌, ◌||◌, List, [], ◌∷◌, ltb, leb, ◌==◌,
  if◌then◌else◌,
}
pub use Prim.Native.String.{◌++◌ as ◌<>◌}

-- `text.replace(a, b)` for one character; `b` is the text of the new one
unfoldable pub replace : ℕ → String → String → String
replace a b String.[] = ""
replace a b (String.◌∷◌ c s) =
    let rest = replace a b s in if code c == a then b <> rest else String.◌∷◌ c rest

-- `text.split(a, 1)[0]`
unfoldable pub before : ℕ → String → String
before a String.[] = ""
before a (String.◌∷◌ c s) = let rest = before a s in if code c == a then "" else String.◌∷◌ c rest

-- `len(text)`
unfoldable pub text_length : String → ℕ
text_length String.[] = 0
text_length (String.◌∷◌ c t) = suc (text_length t)

-- `text[:n]`
unfoldable pub clip : ℕ → String → String
clip zero t = ""
clip (suc n) String.[] = ""
clip (suc n) (String.◌∷◌ c t) = String.◌∷◌ c (clip n t)

-- The lower case of a character, where that is an ASCII letter; the Kelvin sign is one whose is. Any
-- other character stays, since no ASCII letter alone comes of it.
unfoldable pub lower_char : Char → Char
lower_char c =
    if code c == 0x212a
    then "k"
    else if leb 65 (code c) && leb (code c) 90
    then char_at "abcdefghijklmnopqrstuvwxyz" (code c - 65)
    else c

-- `text.lower()`, as far as ASCII letters come of it
unfoldable pub lower : String → String
unfolding lower_char
lower String.[] = ""
lower (String.◌∷◌ c s) = String.◌∷◌ (lower_char c) (lower s)

-- `part in text`
unfoldable pub contains : String → String → Bool
contains part String.[] = starts_with "" part
contains part (String.◌∷◌ c s) = starts_with (String.◌∷◌ c s) part || contains part s

-- `str(n)`: a round for each digit, and there are fewer digits than `n + 1`.
unfoldable pub decimal_on : ℕ → ℕ → String → String
decimal_on zero n acc = acc
decimal_on (suc fuel) n acc =
    let out = String.◌∷◌ (char_at "0123456789" (n % 10)) acc in
    let rest = decimal_on fuel (n / 10) out in if ltb n 10 then out else rest

unfoldable pub decimal : ℕ → String
unfolding decimal_on
decimal n = decimal_on (suc n) n ""

-- Three digits, with leading zeros.
unfoldable pub triple : ℕ → String
triple n = String.◌∷◌ (char_at "0123456789" (n / 100 % 10)) (
    String.◌∷◌ (char_at "0123456789" (n / 10 % 10)) (String.◌∷◌ (char_at "0123456789" (n % 10)) ""))

grouped_on : ℕ → ℕ → String → String
unfolding decimal triple
grouped_on zero n acc = acc
grouped_on (suc fuel) n acc =
    let rest = grouped_on fuel (n / 1000) ("," <> triple (n % 1000) <> acc) in
    if ltb n 1000 then decimal n <> acc else rest

-- `f"{n:,}"`
unfoldable pub grouped : ℕ → String
unfolding grouped_on
grouped n = grouped_on (suc n) n ""

-- `separator.join(parts)`
unfoldable pub join : String → List String → String
join separator [] = ""
join separator (p ∷ []) = p
join separator (p ∷ q ∷ ps) = p <> separator <> join separator (q ∷ ps)
