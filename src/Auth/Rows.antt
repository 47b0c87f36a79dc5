-- ===== src/Auth/Rows.antt =====
-- The tables, settings and errors of app/services/auth.py (app/models.py, app/config.py), and what the
-- process is given from outside: the libraries for digests, passwords, tokens and texts, new ids and
-- secrets, and the readings of the clock in one call.
use fofu_backend.Base.{
  ℕ, Uuid, Time, String, Bool, true, false, not, Option, none, some, List, ◌==◌, str_eq,
  if◌then◌else◌,
}
use fofu_backend.Push.Rows.{User, AuthSession, Scope, Db as PushDb}
use fofu_backend.Cart.Rows.{FoodPassport}

pub record AuthIdentity : Type 0 where
  pub id : Uuid
  pub user_id : Uuid
  pub provider : String
  pub subject : String
  pub email : Option String

-- The tables of users, sessions and devices are those of the outbox.
pub record AuthDb : Type 0 where
  pub push : PushDb
  pub identities : List AuthIdentity
  pub passports : List FoodPassport

pub record AuthSettings : Type 0 where
  pub access_token_minutes : ℕ
  pub refresh_token_days : ℕ
  pub qr_guest_token_minutes : ℕ
  pub jwt_secret : String
  pub jwt_algorithm : String
  pub jwt_issuer : String
  pub jwt_audience : String
  pub google_oauth_client_ids : List String

-- The codes of `AuthServiceError` and `GoogleIdentityError`; `integrity_error` is the database's.
pub data AuthServiceError : Type 0 where
  email_already_registered already_registered guest_upgrade_conflict : AuthServiceError
  invalid_credentials invalid_refresh_token authentication_required : AuthServiceError
  google_identity_conflict google_identity_already_linked : AuthServiceError
  google_account_link_required account_inactive : AuthServiceError
  google_auth_not_configured google_auth_unavailable : AuthServiceError
  invalid_google_token google_email_not_verified : AuthServiceError
  integrity_error : AuthServiceError

-- The claims of an access token; a claim that a token may lack is an option.
pub record Payload : Type 0 where
  pub sub : Uuid
  pub sid : Uuid
  pub roles : Option (List String)
  pub guest_flag : Option Bool
  pub scope : Option Scope
  pub qr_restaurant_id : Option Uuid
  pub kind : String
  pub iss : String
  pub aud : String
  pub iat : Time
  pub nbf : Time
  pub exp : Time
  pub jti : String

-- hashlib, pwdlib and PyJWT: `verify` is none where it raises, and `decode` where the token is refused.
pub record Crypto : Type 0 where
  pub digest : String → String
  pub hash : String → String → String
  pub verify : String → String → Option Bool
  pub encode : String → String → Payload → String
  pub decode : String → String → String → String → Time → String → Option Payload

-- `str.strip` and `str.casefold`, which follow Unicode tables.
pub record Texts : Type 0 where
  pub strip : String → String
  pub casefold : String → String

-- New ids and secrets.
pub record Entropy : Type 0 where
  pub user_id : Uuid
  pub session_id : Uuid
  pub identity_id : Uuid
  pub refresh_token : String
  pub jti : String
  pub salt : String

-- The readings of the clock, named for what is done at them.
pub record Clock : Type 0 where
  pub revoked : Time
  pub retired : Time
  pub revoked_again : Time
  pub retired_again : Time
  pub issued : Time
  pub signed : Time

pub record Host : Type 0 where
  pub crypto : Crypto
  pub texts : Texts
  pub entropy : Entropy
  pub clock : Clock

abbrev pub minute : ℕ
minute = 60_000_000

abbrev pub has_hash : String → AuthSession → Bool
has_hash hash s = str_eq s.refresh_token_hash hash

abbrev pub same_text : String → Option String → Bool
same_text t none = false
same_text t (some u) = str_eq u t

abbrev pub has_email : String → User → Bool
has_email email u = same_text email u.email

abbrev pub same_flag : Bool → Bool → Bool
same_flag true b = b
same_flag false b = not b

abbrev pub same_uuid : Option Uuid → Option Uuid → Bool
same_uuid none none = true
same_uuid (some a) (some b) = a == b
same_uuid _ _ = false

-- `value` where that is neither missing nor empty
abbrev pub nonempty : Option String → Option String
nonempty none = none
nonempty (some t) = if str_eq t "" then none else some t

abbrev pub set_sessions : List AuthSession → AuthDb → AuthDb
set_sessions sessions db = record db { push = record db.push { sessions = sessions } }

abbrev pub set_users : List User → AuthDb → AuthDb
set_users users db = record db { push = record db.push { users = users } }
