-- ===== src/Auth/Tokens.antt =====
-- app/security.py: access tokens. Passwords, digests and the token's encoding are the libraries'.
use fofu_backend.Base.{
  ℕ, zero, suc, Uuid, Time, ◌+◌, ◌-◌, ◌*◌, ◌/◌, String, Bool, false, Option, none, some, List, [],
  or_else, str_eq, Result, raise_if, or_raise, ok, ◌>>=◌, ◌>>◌, not,
}
use fofu_backend.Push.Rows.{Scope, full, second}
use fofu_backend.Auth.Rows.{AuthSettings, Payload, Crypto, Host, minute}

pub data TokenError : Type 0 where
  invalid_token unexpected_token_type : TokenError

pub record AccessClaims : Type 0 where
  pub user_id : Uuid
  pub session_id : Uuid
  pub roles : List String
  pub is_guest : Bool
  pub scope : Scope
  pub qr_restaurant_id : Option Uuid

-- `lifetime or default`: zero minutes count as none.
abbrev pub lifetime_or : Option ℕ → ℕ → ℕ
lifetime_or none default = default
lifetime_or (some zero) default = default
lifetime_or (some (suc n)) default = suc n

unfoldable pub access_payload :
    Host
    → AuthSettings
    → Uuid
    → Uuid
    → List String
    → Bool
    → Scope
    → Option Uuid
    → Option ℕ
    → Payload
access_payload host settings user_id session_id roles is_guest scope qr_restaurant_id minutes =
    let now = host.clock.signed in
    record {
      sub = user_id;
      sid = session_id;
      roles = some roles;
      guest_flag = some is_guest;
      scope = some scope;
      qr_restaurant_id = qr_restaurant_id;
      kind = "access";
      iss = settings.jwt_issuer;
      aud = settings.jwt_audience;
      iat = now;
      nbf = now;
      exp = now + lifetime_or minutes settings.access_token_minutes * minute;
      jti = host.entropy.jti;
    }

-- The token, and the seconds until its end.
unfoldable pub create_access_token :
    Host
    → AuthSettings
    → Uuid
    → Uuid
    → List String
    → Bool
    → Scope
    → Option Uuid
    → Option ℕ
    → String × ℕ
unfolding access_payload
create_access_token host settings user_id session_id roles is_guest scope qr_restaurant_id minutes =
    let payload =
      access_payload host settings user_id session_id roles is_guest scope qr_restaurant_id
        minutes in
    (
      host.crypto.encode settings.jwt_secret settings.jwt_algorithm payload,
      (payload.exp - host.clock.signed) / second,
    )

unfoldable pub claims_of : Payload → AccessClaims
claims_of payload = record {
  user_id = payload.sub;
  session_id = payload.sid;
  roles = or_else payload.roles [];
  is_guest = or_else payload.guest_flag false;
  scope = or_else payload.scope full;
  qr_restaurant_id = payload.qr_restaurant_id;
}

unfoldable pub decode_access_token :
    Crypto → AuthSettings → Time → String → Result TokenError AccessClaims
unfolding claims_of
decode_access_token crypto settings now token =
    or_raise
      (crypto.decode settings.jwt_secret settings.jwt_algorithm settings.jwt_issuer
        settings.jwt_audience now token)
      invalid_token
    >>= λ payload.
        raise_if (not (str_eq payload.kind "access")) unexpected_token_type
        >> ok (claims_of payload)
