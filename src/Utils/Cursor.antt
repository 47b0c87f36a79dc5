-- ===== src/Utils/Cursor.antt =====
-- app/utils.py: the cursors of pages. base64, and `int` on a text, which follows Unicode tables, are
-- parameters; a number that is read may be negative.
use fofu_backend.Base.{
  ℕ, zero, suc, ◌-◌, ◌%◌, String, Option, none, some, ltb, ◌==◌, if◌then◌else◌, Result, ok, err,
}
use Prim.Native.Char.{code}
use fofu_backend.Utils.Text.{text_length, ◌<>◌, decimal}
use fofu_backend.Utils.Locale.{is_blank}

pub data Integer : Type 0 where
  nonnegative negative : ℕ → Integer

pub record Codec : Type 0 where
  pub urlsafe_b64encode : String → String
  pub urlsafe_b64decode : String → Option String
  pub read_integer : String → Option Integer

pub data CursorError : Type 0 where
  invalid_cursor : CursorError

-- `MAX_CURSOR_OFFSET`
abbrev pub max_cursor_offset : ℕ
max_cursor_offset = 1_000_000

-- `text.rstrip("=")`
unfoldable pub strip_equals : String → String
strip_equals String.[] = ""
strip_equals (String.◌∷◌ c t) =
    let rest = strip_equals t in
    if is_blank rest then (if code c == b'=' then "" else String.◌∷◌ c "") else String.◌∷◌ c rest

-- `"=" * n`
unfoldable pub equals : ℕ → String
equals zero = ""
equals (suc n) = String.◌∷◌ "=" (equals n)

unfoldable pub encode_cursor : Codec → ℕ → String
unfolding decimal strip_equals
encode_cursor codec offset = strip_equals (codec.urlsafe_b64encode (decimal offset))

-- `cursor + "=" * (-len(cursor) % 4)`
unfoldable pub padded : String → String
unfolding text_length equals
padded cursor = cursor <> equals ((4 - text_length cursor % 4) % 4)

abbrev pub read_text : Codec → Option String → Option Integer
read_text codec none = none
read_text codec (some t) = codec.read_integer t

abbrev pub in_range : Option Integer → Result CursorError ℕ
in_range (some (nonnegative n)) = if ltb max_cursor_offset n then err invalid_cursor else ok n
in_range _ = err invalid_cursor

unfoldable pub decode_cursor : Codec → Option String → Result CursorError ℕ
unfolding padded
decode_cursor codec none = ok 0
decode_cursor codec (some cursor) =
    if is_blank cursor
    then ok 0
    else in_range (read_text codec (codec.urlsafe_b64decode (padded cursor)))
