-- ===== src/Auth/Handlers.antt =====
-- app/api/auth.py: the handlers of requests, and the responses of app/schemas/auth.py. What a handler
-- does to the cookie of its response is an action; where it raises, the tables are as the calls before
-- have committed them.
use fofu_backend.Base.{
  ℕ, Uuid, Time, ◌-◌, ◌/◌, String, Bool, true, false, not, ◌&&◌, Option, none, some, List, str_eq,
  any, if◌then◌else◌, Result, ok, err,
}
use fofu_backend.Utils.Locale.{is_blank}
use fofu_backend.Push.Rows.{User, ClientType, web, Scope, full, second}
use fofu_backend.Auth.Rows.{AuthDb, AuthSettings, AuthServiceError, Host, nonempty}
use fofu_backend.Auth.Revoke.{revoke_sessions}
use fofu_backend.Auth.Issue.{
  IssuedCredentials, Issued, create_anonymous_user, login_user, rotate_refresh_token,
}
use fofu_backend.Auth.Register.{Registration, register_user}
use fofu_backend.Auth.Identity.{Google}
use fofu_backend.Auth.Google.{login_google_user}
use fofu_backend.Auth.Principal.{AuthenticatedPrincipal}

pub record UserSummary : Type 0 where
  pub id : Uuid
  pub email : Option String
  pub display_name : String
  pub home_country_code : Option String
  pub locale : String
  pub is_guest : Bool
  pub roles : List String

pub record AuthResponse : Type 0 where
  pub access_token : String
  pub expires_in : ℕ
  pub refresh_token : Option String
  pub refresh_expires_at : Time
  pub scope : Scope
  pub user : UserSummary

pub data CookieAction : Type 0 where
  keep_cookie clear_cookie : CookieAction
  set_cookie : String → ℕ → Time → CookieAction

pub data AuthHttpError : Type 0 where
  service_error : AuthServiceError → AuthHttpError
  admin_login_separated refresh_token_required : AuthHttpError

pub record Handled (A : Type 0) : Type 0 where
  pub cookie : CookieAction
  pub reply : Result AuthHttpError A
  pub tables : AuthDb

abbrev pub is_web : ClientType → Bool
is_web web = true
is_web _ = false

abbrev pub is_full_scope : Scope → Bool
is_full_scope full = true
is_full_scope _ = false

abbrev pub is_admin : User → Bool
is_admin u = any (λ r. str_eq r "admin") u.roles

unfoldable pub user_summary : User → UserSummary
user_summary u = record {
  id = u.id;
  email = u.email;
  display_name = u.display_name;
  home_country_code = u.home_country_code;
  locale = u.locale;
  is_guest = u.is_guest;
  roles = u.roles;
}

-- `auth_response` with `token_bundle`
unfoldable pub auth_response : IssuedCredentials → Bool → AuthResponse
unfolding user_summary
auth_response c expose_refresh_token = record {
  access_token = c.access_token;
  expires_in = c.expires_in;
  refresh_token = if expose_refresh_token then some c.refresh_token else none;
  refresh_expires_at = c.session.expires_at;
  scope = c.session.scope;
  user = user_summary c.user;
}

-- `set_refresh_cookie`: the age is in seconds, and none is negative.
abbrev pub refresh_cookie : String → Time → Time → CookieAction
refresh_cookie token expires_at now = set_cookie token ((expires_at - now) / second) expires_at

-- `_respond_with_credentials` at the time `now`
unfoldable pub respond : IssuedCredentials → Time → AuthDb → Handled AuthResponse
unfolding auth_response
respond c now db = record {
  cookie =
      if is_web c.session.client_type
      then refresh_cookie c.refresh_token c.session.expires_at now
      else keep_cookie;
  reply = ok (auth_response c (not (is_web c.session.client_type)));
  tables = db;
}

unfoldable pub refused : {A : Type 0} → CookieAction → AuthHttpError → AuthDb → Handled A
refused cookie e db = record { cookie = cookie; reply = err e; tables = db }

-- The tables that a call of `revoke_sessions` leaves.
abbrev pub tables_after : Result AuthServiceError (Bool × AuthDb) → AuthDb → AuthDb
tables_after (ok r) db = r.1
tables_after (err e) db = db

-- The session that an administrator has just been given is revoked.
unfoldable pub revoke_issued : Host → IssuedCredentials → AuthDb → AuthDb
revoke_issued host c db =
    tables_after (revoke_sessions host (some c.user.id) (some c.session.id) none false db) db

-- What a handler does with the outcome of its call; `db` are the tables before it, `separated` tells
-- whether an administrator is refused.
unfoldable pub handle_issued :
    Host → (IssuedCredentials → Bool) → CookieAction → Time → Issued → AuthDb → Handled AuthResponse
unfolding refused respond revoke_issued
handle_issued host separated cookie now (err e) db = refused cookie (service_error e) db
handle_issued host separated cookie now (ok (c, db')) db =
    if separated c
    then refused cookie admin_login_separated (revoke_issued host c db')
    else respond c now db'

abbrev pub never : IssuedCredentials → Bool
never c = false

-- `payload.client_type == "web" and "admin" in roles`
abbrev pub is_admin_on : ClientType → IssuedCredentials → Bool
is_admin_on client_type c = is_web client_type && is_admin c.user

unfoldable pub anonymous :
    Host
    → AuthSettings
    → String
    → String
    → ClientType
    → Option String
    → Time
    → AuthDb
    → Handled AuthResponse
unfolding handle_issued
anonymous host settings locale display_name client_type device_id now db =
    handle_issued host never keep_cookie now
      (create_anonymous_user host settings locale display_name client_type device_id db) db

abbrev pub user_of_principal : Option AuthenticatedPrincipal → Option User
user_of_principal none = none
user_of_principal (some p) = some p.user

abbrev pub session_of_principal : Option AuthenticatedPrincipal → Option Uuid
session_of_principal none = none
session_of_principal (some p) = some p.session.id

abbrev pub id_of_principal : Option AuthenticatedPrincipal → Option Uuid
id_of_principal none = none
id_of_principal (some p) = some p.user.id

unfoldable pub register :
    Host
    → AuthSettings
    → Registration
    → ClientType
    → Option String
    → Option AuthenticatedPrincipal
    → Time
    → AuthDb
    → AuthDb
    → Handled AuthResponse
unfolding handle_issued
register host settings form client_type device_id principal now seen db =
    handle_issued host never keep_cookie now
      (register_user host settings form client_type device_id (user_of_principal principal) seen db)
      db

unfoldable pub login :
    Host
    → AuthSettings
    → String
    → String
    → ClientType
    → Option String
    → Time
    → AuthDb
    → Handled AuthResponse
unfolding handle_issued
login host settings email password client_type device_id now db =
    handle_issued host (is_admin_on client_type) keep_cookie now
      (login_user host settings email password client_type device_id full db) db

unfoldable pub google_login :
    Google
    → Host
    → AuthSettings
    → String
    → Option String
    → String
    → ClientType
    → Option String
    → Option AuthenticatedPrincipal
    → Time
    → AuthDb
    → Handled AuthResponse
unfolding handle_issued
google_login google host settings id_token replaced locale client_type device_id principal now db =
    handle_issued host (is_admin_on client_type) keep_cookie now
      (login_google_user google host settings id_token locale client_type device_id
        (user_of_principal principal) (session_of_principal principal) replaced db)
      db

-- The condition of `refresh` on a rotated session.
abbrev pub is_admin_session : IssuedCredentials → Bool
is_admin_session c =
    is_web c.session.client_type && (is_full_scope c.session.scope && is_admin c.user)

-- `payload.refresh_token` where there is one, and else the cookie
abbrev pub given_token : Option String → Option String → Option String
given_token (some token) cookie = if is_blank token then cookie else some token
given_token none cookie = cookie

unfoldable pub refresh_with :
    Host → AuthSettings → Option String → Time → AuthDb → Handled AuthResponse
unfolding handle_issued refused
refresh_with host settings none now db = refused keep_cookie refresh_token_required db
refresh_with host settings (some token) now db =
    handle_issued host is_admin_session clear_cookie now
      (rotate_refresh_token host settings token db) db

unfoldable pub refresh :
    Host → AuthSettings → Option String → Option String → Time → AuthDb → Handled AuthResponse
unfolding refresh_with
refresh host settings requested cookie now db =
    refresh_with host settings (nonempty (given_token requested cookie)) now db

abbrev pub logged_out : Result AuthServiceError (Bool × AuthDb) → AuthDb → Handled Bool
logged_out (ok r) db = record { cookie = clear_cookie; reply = ok r.0; tables = r.1 }
logged_out (err e) db = record { cookie = keep_cookie; reply = err (service_error e); tables = db }

-- `session_id=principal.session.id if principal and not raw_token else None`
abbrev pub session_unless : Option String → Option Uuid → Option Uuid
session_unless none session_id = session_id
session_unless (some token) session_id = none

unfoldable pub logout :
    Host
    → Option AuthenticatedPrincipal
    → Option String
    → Option String
    → Bool
    → AuthDb
    → Handled Bool
logout host principal requested cookie all_sessions db =
    let token = given_token requested cookie in
    logged_out
      (revoke_sessions host (id_of_principal principal)
        (session_unless (nonempty token) (session_of_principal principal)) token all_sessions db)
      db
