-- ===== src/Utils/Locale.antt =====
-- app/utils.py: `normalize_locale` and `localized`.
use fofu_backend.Base.{
  String, ◌≡◌, refl, inl, inr, Bool, true, ◌&&◌, ◌||◌, not, Option, none, some, List, [], ◌∷◌,
  arith, str_eq, eq_iff, or_else, any, find, if◌then◌else◌, All, Bool-cases, subst, if-split,
}
use fofu_backend.Utils.Text.{replace, before, lower, contains}

-- `SUPPORTED_LOCALES`; the set is searched by language alone, and but for Chinese, which is treated
-- apart, no two of its members share one, so that its order does not matter.
abbrev pub supported_locales : List String
supported_locales =
    "en" ∷ "fr" ∷ "es" ∷ "de" ∷ "it" ∷ "pt-BR" ∷ "ja" ∷ "zh-Hans" ∷ "zh-Hant" ∷ "ko" ∷ "ar" ∷ "hi"
    ∷ "id" ∷ "nl" ∷ "pl" ∷ "ru" ∷ "th" ∷ "tr" ∷ "uk" ∷ "vi" ∷ []

abbrev pub is_supported : String → Bool
is_supported l = any (λ s. str_eq s l) supported_locales

unfoldable pub of_language : String → String → String
unfolding before contains lower
of_language normalized language =
    if str_eq language "zh"
    then (if contains "hant" (lower normalized)
          || (contains "tw" (lower normalized) || contains "hk" (lower normalized))
        then "zh-Hant"
        else "zh-Hans")
    else or_else (find (λ s. str_eq (before b'-' s) language) supported_locales) "en"

unfoldable pub normalize_locale : Option String → String
unfolding replace before lower of_language
normalize_locale none = "en"
normalize_locale (some locale) =
    let normalized = replace b'_' "-" locale in
    if str_eq locale ""
    then "en"
    else if is_supported normalized
    then normalized
    else of_language normalized (lower (before b'-' normalized))

abbrev pub is_blank : String → Bool
is_blank t = str_eq t ""

-- `ko if normalize_locale(locale) == "ko" and ko else en`
unfoldable pub localized : String → Option String → Option String → String
unfolding normalize_locale
localized en none locale = en
localized en (some ko) locale =
    if str_eq (normalize_locale locale) "ko" && not (is_blank ko) then ko else en

-- What holds of each supported locale holds of a text that is one.
supported_elim :
    (P : String → Type 0) (l : String) (ls : List String)
    → any (λ s. str_eq s l) ls ≡ true
    → All P ls
    → P l
unfolding any
supported_elim P l [] h k = absurd (ground arith)
supported_elim P l (s ∷ ls) h k = elim (Bool-cases (str_eq s l)) [
  | inl same ↦ subst P ((eq_iff s l).0 same) k.0
  | inr other ↦ supported_elim P l ls (ground (arith, other)) k.1
]

found_supported :
    (p : String → Bool) (ls : List String) (s : String)
    → find p ls ≡ some s
    → any (λ t. str_eq t s) ls ≡ true
unfolding find any
found_supported p [] s h = absurd (ground arith)
found_supported p (t ∷ ls) s h = ground (arith, eq_iff t s, found_supported p ls s)

match_supported :
    (o : Option String)
    → ((s : String) → o ≡ some s → is_supported s ≡ true)
    → is_supported (or_else o "en") ≡ true
unfolding any
match_supported none h = refl
match_supported (some s) h = h s refl

-- The fallback by language is a supported locale.
of_language-supported :
    (normalized language : String) → is_supported (of_language normalized language) ≡ true
unfolding of_language any
of_language-supported normalized language =
    if-split (λ t. is_supported t ≡ true) (str_eq language "zh")
      (λ _.
        if-split (λ t. is_supported t ≡ true)
          (contains "hant" (lower normalized)
            || (contains "tw" (lower normalized) || contains "hk" (lower normalized)))
          {x = "zh-Hant"} {y = "zh-Hans"} (λ _. refl) (λ _. refl))
      (λ _.
        match_supported (find (λ s. str_eq (before b'-' s) language) supported_locales)
          (λ s e. found_supported (λ s. str_eq (before b'-' s) language) supported_locales s e))

normalize_locale-supported :
    (locale : Option String) → is_supported (normalize_locale locale) ≡ true
unfolding normalize_locale
normalize_locale-supported none = unfold any in refl
normalize_locale-supported (some locale) =
    let normalized = replace b'_' "-" locale in
    if-split (λ t. is_supported t ≡ true) (str_eq locale "") (λ _. unfold any in refl)
      (λ _.
        if-split (λ t. is_supported t ≡ true) (is_supported normalized) (λ e. e)
          (λ _. of_language-supported normalized (lower (before b'-' normalized))))

fixed : All (λ l. normalize_locale (some l) ≡ l) supported_locales
unfolding normalize_locale any
fixed = (
  refl,
  (
    refl,
    (
      refl,
      (
        refl,
        (
          refl,
          (
            refl,
            (
              refl,
              (
                refl,
                (
                  refl,
                  (
                    refl,
                    (
                      refl,
                      (refl, (refl, (refl, (refl, (refl, (refl, (refl, (refl, (refl, tt))))))))),
                    ),
                  ),
                ),
              ),
            ),
          ),
        ),
      ),
    ),
  ),
)

-- The result is a supported locale, and is its own normal form: normalising twice is normalising once.
pub normalize_locale_idem :
    (locale : Option String)
    → (is_supported (normalize_locale locale) ≡ true)
      × (normalize_locale (some (normalize_locale locale)) ≡ normalize_locale locale)
normalize_locale_idem locale = (
  normalize_locale-supported locale,
  supported_elim (λ l. normalize_locale (some l) ≡ l) (normalize_locale locale) supported_locales
      (normalize_locale-supported locale) fixed,
)
