-- ===== src/Auth/Principal.antt =====
-- app/dependencies.py: the principal of a request, and what an operation may require of it.
use fofu_backend.Base.{
  Uuid, Time, String, Bool, true, false, not, ◌||◌, Option, none, some, ◌==◌, leb, is_some, str_eq,
  find, any, Result, ok, err, raise_if, or_raise, ◌>>=◌, ◌>>◌,
}
use fofu_backend.Push.Rows.{
  User, AuthSession, ClientType, ios, android, Scope, full, guest, qr_guest, admin,
}
use fofu_backend.Auth.Rows.{AuthDb, AuthSettings, Host, same_flag, same_uuid}
use fofu_backend.Auth.Tokens.{AccessClaims, TokenError, decode_access_token}
use fofu_backend.Auth.Issue.{user_by_id}

-- The codes of the HTTP errors.
pub data Unauthorized : Type 0 where
  invalid_authorization_scheme invalid_access_token invalid_session : Unauthorized
  invalid_session_scope invalid_user user_authentication_required : Unauthorized
  registered_account_required admin_access_required : Unauthorized

pub record AuthenticatedPrincipal : Type 0 where
  pub user : User
  pub session : AuthSession
  pub claims : AccessClaims

pub record AuthorizationCredentials : Type 0 where
  pub scheme : String
  pub token : String

abbrev pub same_scope : Scope → Scope → Bool
same_scope full full = true
same_scope guest guest = true
same_scope qr_guest qr_guest = true
same_scope admin admin = true
same_scope _ _ = false

-- A session that the token may not be used for.
unfoldable pub is_ended : Time → AccessClaims → AuthSession → Bool
is_ended now claims s =
    not (s.user_id == claims.user_id) || (is_some s.revoked_at || leb s.expires_at now)

unfoldable pub is_rescoped : AccessClaims → AuthSession → Bool
is_rescoped claims s =
    not (same_scope s.scope claims.scope)
    || not (same_uuid s.qr_restaurant_id claims.qr_restaurant_id)

unfoldable pub is_invalid_user : AccessClaims → User → Bool
is_invalid_user claims u = not u.is_active || not (same_flag u.is_guest claims.is_guest)

unfoldable pub session_by_id : Uuid → AuthDb → Option AuthSession
session_by_id i db = find (λ (s : AuthSession). s.id == i) db.push.sessions

-- `get_optional_principal` from the claims of the token on.
unfoldable pub principal_of :
    Time → AccessClaims → AuthDb → Result Unauthorized AuthenticatedPrincipal
unfolding session_by_id user_by_id is_ended is_rescoped is_invalid_user
principal_of now claims db = or_raise (session_by_id claims.session_id db) invalid_session >>= λ s.
    raise_if (is_ended now claims s) invalid_session
    >> (raise_if (is_rescoped claims s) invalid_session_scope
        >> (raise_if (not (same_flag s.is_guest_at_issue claims.is_guest)) invalid_session
            >> (or_raise (user_by_id claims.user_id db) invalid_user >>= λ u.
                raise_if (is_invalid_user claims u) invalid_user
                >> ok (record { user = u; session = s; claims = claims }))))

-- `except TokenError`
abbrev pub or_invalid_token : Result TokenError AccessClaims → Result Unauthorized AccessClaims
or_invalid_token (ok claims) = ok claims
or_invalid_token (err e) = err invalid_access_token

unfoldable pub get_optional_principal :
    Host
    → AuthSettings
    → Time
    → Time
    → Option AuthorizationCredentials
    → AuthDb
    → Result Unauthorized (Option AuthenticatedPrincipal)
unfolding principal_of decode_access_token
get_optional_principal host settings decoded now none db = ok none
get_optional_principal host settings decoded now (some credentials) db =
    raise_if (not (str_eq (host.texts.casefold credentials.scheme) "bearer"))
      invalid_authorization_scheme
    >> (or_invalid_token (decode_access_token host.crypto settings decoded credentials.token)
        >>= λ claims. principal_of now claims db >>= λ principal. ok (some principal))

unfoldable pub get_current_principal :
    Option AuthenticatedPrincipal → Result Unauthorized AuthenticatedPrincipal
get_current_principal principal = or_raise principal user_authentication_required

unfoldable pub require_registered_user : User → Result Unauthorized User
require_registered_user user = raise_if user.is_guest registered_account_required >> ok user

-- `session_has_admin_scope`
abbrev pub has_admin_scope : Scope → ClientType → Bool
has_admin_scope admin client_type = true
has_admin_scope full ios = true
has_admin_scope full android = true
has_admin_scope _ _ = false

unfoldable pub require_admin : AuthenticatedPrincipal → Result Unauthorized User
require_admin principal =
    let user = principal.user in
    raise_if
      (user.is_guest
        || (not (has_admin_scope principal.session.scope principal.session.client_type)
            || not (any (λ r. str_eq r "admin") user.roles)))
      admin_access_required
    >> ok user
