-- ===== src/Utils/Pagination.antt =====
-- The round trip of a cursor in app/utils.py, from what base64 and `int` promise.
use Prim.Native.Char.{Char, code}
use Prim.Native.String.append
use fofu_backend.Base.{
  ℕ, zero, suc, ◌+◌, ◌%◌, ◌≡◌, ◌≤◌, refl, ap, inl, inr, String, Bool, true, false, not, ◌&&◌, some,
  ltb, ◌==◌, if◌then◌else◌, Bool-cases, ok, err, arith, eq_iff,
}
use fofu_backend.Utils.Text.{text_length, ◌<>◌, decimal}
use fofu_backend.Utils.Locale.{is_blank}
use fofu_backend.Utils.Cursor.{
  nonnegative, Codec, invalid_cursor, max_cursor_offset, strip_equals, equals, encode_cursor,
  padded, decode_cursor,
}

-- A text without `=`.
unfoldable pub lacks_equals : String → Bool
lacks_equals String.[] = true
lacks_equals (String.◌∷◌ c t) = not (code c == b'=') && lacks_equals t

-- What base64 and `int` promise of the text of a number: it is encoded as a text without `=` and then up
-- to three of them, which make its length a multiple of four; this is decoded to the number's text, and
-- that is read as the number.
pub record CodecLaws (codec : Codec) : Type 0 where
  pub body : ℕ → String
  pub padding : ℕ → ℕ
  pub encoded : (n : ℕ) → codec.urlsafe_b64encode (decimal n) ≡ body n <> equals (padding n)
  pub plain : (n : ℕ) → lacks_equals (body n) ≡ true
  pub nonempty : (n : ℕ) → is_blank (body n) ≡ false
  pub few : (n : ℕ) → padding n ≤ 3
  pub whole : (n : ℕ) → (text_length (body n) + padding n) % 4 ≡ 0
  pub decoded : (n : ℕ) → codec.urlsafe_b64decode (body n <> equals (padding n)) ≡ some (decimal n)
  pub read : (n : ℕ) → codec.read_integer (decimal n) ≡ some (nonnegative n)

pub is_blank-cons : (c : Char) (t : String) → is_blank (String.◌∷◌ c t) ≡ false
is_blank-cons c t = elim (Bool-cases (is_blank (String.◌∷◌ c t))) [
  | inl blank ↦ absurd (no_char (ap text_length ((eq_iff (String.◌∷◌ c t) "").0 blank)))
  | inr there ↦ there
]
  where
    no_char : text_length (String.◌∷◌ c t) ≡ text_length "" → ⊥
    no_char e = unfold text_length in omega (arith, e)

strip-equals : (k : ℕ) → strip_equals (equals k) ≡ ""
unfolding strip_equals equals
strip-equals zero = refl
strip-equals (suc k) = rw (strip-equals k) refl

pub strip-plain : (t : String) (k : ℕ) → lacks_equals t ≡ true → strip_equals (t <> equals k) ≡ t
unfolding strip_equals lacks_equals
strip-plain String.[] k h = rw (append.nil (equals k)) (strip-equals k)
strip-plain (String.◌∷◌ c String.[]) k h =
    rw (append.cons c "" (equals k), append.nil (equals k), strip-equals k) (ground (arith, h))
strip-plain (String.◌∷◌ c (String.◌∷◌ d t)) k h =
    rw
      (
        append.cons c (String.◌∷◌ d t) (equals k),
        strip-plain (String.◌∷◌ d t) k (ground (arith, h)),
        is_blank-cons d t,
      )
      refl

padded-whole : (t : String) (k : ℕ) → k ≤ 3 → (text_length t + k) % 4 ≡ 0 → padded t ≡ t <> equals k
unfolding padded
padded-whole t k few whole = ap (λ n. t <> equals n) (omega arith)

module _ (codec : Codec) (laws : CodecLaws codec) where
  encoded-body : (n : ℕ) → encode_cursor codec n ≡ laws.body n
  unfolding encode_cursor
  encoded-body n = rw (laws.encoded n) (strip-plain (laws.body n) (laws.padding n) (laws.plain n))

  -- Where base64 and `int` keep what they promise: the cursor of an offset up to a million is decoded to
  -- the offset, and that of a larger one is refused.
  pub decode_cursor-encode_cursor :
      (n : ℕ)
      → decode_cursor codec (some (encode_cursor codec n))
        ≡ (if ltb max_cursor_offset n then err invalid_cursor else ok n)
  unfolding decode_cursor
  decode_cursor-encode_cursor n =
      rw
        (
          encoded-body n,
          laws.nonempty n,
          padded-whole (laws.body n) (laws.padding n) (laws.few n) (laws.whole n),
          laws.decoded n,
          laws.read n,
        )
        refl
