-- ===== src/Auth/Issue.antt =====
-- app/services/auth.py: issuing sessions, guests, the login and the rotation of refresh tokens.
use fofu_backend.Base.{
  ℕ, Uuid, Time, ◌+◌, ◌-◌, ◌*◌, ◌/◌, min, max, String, Bool, true, false, not, ◌&&◌, ◌||◌, Option,
  none, some, [], ◌∷◌, ◌++◌, ◌==◌, leb, is_some, or_else, find, any, update_where, if◌then◌else◌,
  Result, ok, raise_if, or_raise, ◌>>=◌, ◌>>◌,
}
use fofu_backend.Push.Rows.{User, AuthSession, ClientType, Scope, guest, qr_guest, day}
use fofu_backend.Cart.Rows.{FoodPassport}
use fofu_backend.Utils.Locale.{normalize_locale, is_blank}
use fofu_backend.Auth.Rows.{
  AuthDb, AuthSettings, AuthServiceError, invalid_credentials, invalid_refresh_token,
  integrity_error, Host, Crypto, Texts, minute, has_hash, has_email, same_flag, set_sessions,
  set_users,
}
use fofu_backend.Auth.Tokens.{lifetime_or, create_access_token}

pub record IssuedCredentials : Type 0 where
  pub user : User
  pub session : AuthSession
  pub access_token : String
  pub expires_in : ℕ
  pub refresh_token : String

abbrev pub Issued : Type 0
Issued = Result AuthServiceError (IssuedCredentials × AuthDb)

unfoldable pub new_session :
    Host
    → AuthSettings
    → User
    → ClientType
    → Option String
    → Scope
    → Option Uuid
    → Option Time
    → AuthSession
new_session host settings user client_type device_id scope qr_restaurant_id lifetime =
    let now = host.clock.issued in
    record {
      id = host.entropy.session_id;
      user_id = user.id;
      refresh_token_hash = host.crypto.digest host.entropy.refresh_token;
      client_type = client_type;
      device_id = device_id;
      scope = scope;
      is_guest_at_issue = user.is_guest;
      qr_restaurant_id = qr_restaurant_id;
      expires_at = now + lifetime_or lifetime (settings.refresh_token_days * day);
      created_at = now;
      last_used_at = now;
      revoked_at = none;
    }

-- The token of a session that stands in the tables.
unfoldable pub sign : Host → AuthSettings → User → AuthSession → Option ℕ → IssuedCredentials
unfolding create_access_token
sign host settings user session minutes =
    let (access_token, expires_in) =
      create_access_token host settings user.id session.id user.roles user.is_guest session.scope
        session.qr_restaurant_id minutes in
    record {
      user = user;
      session = session;
      access_token = access_token;
      expires_in = expires_in;
      refresh_token = host.entropy.refresh_token;
    }

-- `auth_sessions.refresh_token_hash` is unique.
unfoldable pub issue_session :
    Host
    → AuthSettings
    → User
    → ClientType
    → Option String
    → Scope
    → Option Uuid
    → Option ℕ
    → Option Time
    → AuthDb
    → Issued
unfolding new_session sign
issue_session host settings user client_type device_id scope qr_restaurant_id minutes lifetime db =
    let session =
      new_session host settings user client_type device_id scope qr_restaurant_id lifetime in
    raise_if (any (has_hash session.refresh_token_hash) db.push.sessions) integrity_error
    >> ok (
      sign host settings user session minutes,
      set_sessions (db.push.sessions ++ session ∷ []) db,
    )

-- `FoodPassport(user_id=user.id)`
abbrev pub empty_passport : Uuid → FoodPassport
empty_passport user_id = record {
  user_id = user_id;
  diet_codes = [];
  avoid_allergen_codes = [];
  avoid_ingredient_codes = [];
}

unfoldable pub insert_user : User → AuthDb → AuthDb
insert_user user db = record (set_users (db.push.users ++ user ∷ []) db) {
  passports = db.passports ++ empty_passport user.id ∷ [];
}

-- `display_name.strip() or "Guest"`
abbrev pub guest_name : String → String
guest_name name = if is_blank name then "Guest" else name

unfoldable pub new_guest : Host → String → String → User
unfolding normalize_locale
new_guest host locale display_name = record {
  id = host.entropy.user_id;
  email = none;
  password_hash = none;
  display_name = guest_name (host.texts.strip display_name);
  home_country_code = none;
  locale = normalize_locale (some locale);
  is_guest = true;
  is_active = true;
  roles = [];
}

unfoldable pub create_anonymous_user :
    Host → AuthSettings → String → String → ClientType → Option String → AuthDb → Issued
unfolding new_guest insert_user issue_session
create_anonymous_user host settings locale display_name client_type device_id db =
    let user = new_guest host locale display_name in
    issue_session host settings user client_type device_id guest none none none
      (insert_user user db)

-- An empty hash counts as none, and a hash that cannot be read does not match.
unfoldable pub password_matches : Crypto → String → Option String → Bool
password_matches crypto password none = false
password_matches crypto password (some hash) =
    not (is_blank hash) && or_else (crypto.verify password hash) false

unfoldable pub may_log_in : Crypto → String → Option User → Bool
unfolding password_matches
may_log_in crypto password none = false
may_log_in crypto password (some u) =
    password_matches crypto password u.password_hash && (not u.is_guest && u.is_active)

-- `email.strip().casefold()`
abbrev pub normal_email : Texts → String → String
normal_email texts email = texts.casefold (texts.strip email)

unfoldable pub login_user :
    Host → AuthSettings → String → String → ClientType → Option String → Scope → AuthDb → Issued
unfolding may_log_in issue_session
login_user host settings email password client_type device_id scope db =
    let found = find (has_email (normal_email host.texts email)) db.push.users in
    raise_if (not (may_log_in host.crypto password found)) invalid_credentials
    >> (or_raise found invalid_credentials >>= λ user.
        issue_session host settings user client_type device_id scope none none none db)

-- The columns that a rotation writes.
unfoldable pub rotate : Host → AuthSettings → Time → AuthSession → AuthSession
rotate host settings now s = elim s.scope [
  | qr_guest ↦ record s {
    refresh_token_hash = host.crypto.digest host.entropy.refresh_token;
    last_used_at = now;
  }
  | _ ↦ record s {
    refresh_token_hash = host.crypto.digest host.entropy.refresh_token;
    last_used_at = now;
    expires_at = now + settings.refresh_token_days * day;
  }
]

-- `access_minutes`, where `s` is the session before the rotation.
unfoldable pub rotated_minutes : AuthSettings → Time → AuthSession → ℕ
rotated_minutes settings now s = elim s.scope [
  | qr_guest ↦ max 1 (min settings.qr_guest_token_minutes ((s.expires_at - now) / minute))
  | _ ↦ settings.access_token_minutes
]

-- `session.user`; the foreign key says that the row is there.
unfoldable pub user_by_id : Uuid → AuthDb → Option User
user_by_id i db = find (λ (u : User). u.id == i) db.push.users

-- The conditions under which a refresh token is refused.
abbrev pub is_refused : Time → AuthSession → User → Bool
is_refused now s u =
    is_some s.revoked_at
    || (leb s.expires_at now || (not u.is_active || not (same_flag s.is_guest_at_issue u.is_guest)))

-- `refresh_token_hash` is unique, and another row may have the new hash.
abbrev pub is_hash_taken : String → AuthSession → AuthSession → Bool
is_hash_taken hash s t = not (t.id == s.id) && has_hash hash t

unfoldable pub rotate_refresh_token : Host → AuthSettings → String → AuthDb → Issued
unfolding user_by_id rotate rotated_minutes sign
rotate_refresh_token host settings token db =
    let now = host.clock.issued in
    or_raise (find (has_hash (host.crypto.digest token)) db.push.sessions) invalid_refresh_token
    >>= λ s. or_raise (user_by_id s.user_id db) invalid_refresh_token >>= λ user.
        raise_if (is_refused now s user) invalid_refresh_token
        >> (raise_if
              (any (is_hash_taken (host.crypto.digest host.entropy.refresh_token) s)
                db.push.sessions)
              integrity_error
            >> ok (
              sign host settings user (rotate host settings now s)
                  (some (rotated_minutes settings now s)),
              set_sessions
                  (update_where (λ (t : AuthSession). t.id == s.id) (rotate host settings now)
                    db.push.sessions)
                  db,
            ))
