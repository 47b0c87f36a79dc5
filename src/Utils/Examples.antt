-- ===== src/Utils/Examples.antt =====
-- `normalize_locale` of app/utils.py at concrete inputs.
use fofu_backend.Base.{◌≡◌, refl, true, some, find, any}
use fofu_backend.Utils.Locale.{normalize_locale, is_supported, normalize_locale_idem}

traditional : normalize_locale (some "zh_TW") ≡ "zh-Hant"
unfolding normalize_locale find any
traditional = refl

brazilian : normalize_locale (some "pt") ≡ "pt-BR"
unfolding normalize_locale find any
brazilian = refl

normalize_locale_idem_example :
    (is_supported (normalize_locale (some "zh_TW")) ≡ true)
    × (normalize_locale (some (normalize_locale (some "zh_TW"))) ≡ normalize_locale (some "zh_TW"))
normalize_locale_idem_example = normalize_locale_idem (some "zh_TW")
