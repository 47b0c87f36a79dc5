-- ===== src/Auth/Examples.antt =====
-- app/services/auth.py at concrete tables: a guest with a session and a phone, and a registered user. The
-- libraries are stood in for by simple functions.
use fofu_backend.Base.{
  Time, ◌≡◌, ◌≤◌, ◌*◌, ◌-◌, max, refl, Bool, true, false, none, some, [], ◌∷◌, arith, All, str_eq,
  find, any, select, count_if, update_where, is_ok, Result, ok, err,
}
use fofu_backend.Utils.Text.{lower}
use fofu_backend.Push.Rows.{User, AuthSession, PushDevice, ios, full, qr_guest, sandbox, second}
use fofu_backend.Push.Cancel.{is_bound, deactivate_session_devices}
use fofu_backend.Auth.Rows.{
  AuthServiceError, AuthDb, AuthSettings, Entropy, Clock, Host, Payload, minute,
  invalid_refresh_token,
}
use fofu_backend.Auth.Tokens.{AccessClaims}
use fofu_backend.Auth.Revoke.{revoke_sessions, revocation_target}
use fofu_backend.Auth.Issue.{IssuedCredentials, rotate_refresh_token}
use fofu_backend.Auth.Principal.{principal_of, invalid_session}
use fofu_backend.Auth.Rotation.{
  rotate_refresh_token-spent, rotate_refresh_token-renewed, rotate_refresh_token-qr_bounds,
}
use fofu_backend.Auth.Access.{revoke_sessions-ends, revoke_sessions_everywhere}
use fofu_backend.Auth.Entry.{whole_seconds}

abbrev pub settings : AuthSettings
settings = record {
  access_token_minutes = 15;
  refresh_token_days = 30;
  qr_guest_token_minutes = 30;
  jwt_secret = "secret";
  jwt_algorithm = "HS256";
  jwt_issuer = "fofu";
  jwt_audience = "app";
  google_oauth_client_ids = "client" ∷ [];
}

abbrev pub visitor : User
visitor = record {
  id = 1;
  email = none;
  password_hash = none;
  display_name = "Guest";
  home_country_code = none;
  locale = "en";
  is_guest = true;
  is_active = true;
  roles = [];
}

abbrev pub member : User
member = record visitor {
  id = 5;
  email = some "a@fofu.app";
  password_hash = some "pw";
  is_guest = false;
  roles = "customer" ∷ [];
}

abbrev pub visit : AuthSession
visit = record {
  id = 2;
  user_id = 1;
  refresh_token_hash = "first";
  client_type = ios;
  device_id = none;
  scope = qr_guest;
  is_guest_at_issue = true;
  qr_restaurant_id = some 7;
  expires_at = 1000 * minute;
  created_at = 0;
  last_used_at = 0;
  revoked_at = none;
}

abbrev phone : PushDevice
phone = record {
  id = 3;
  user_id = 1;
  auth_session_id = 2;
  installation_id = "phone";
  device_token = "ab";
  platform = "ios";
  topic = "com.fofu.app";
  environment = sandbox;
  locale = none;
  is_active = true;
  invalidated_reason = none;
  invalidated_at = none;
  last_registered_at = 0;
  updated_at = 0;
}

abbrev pub db : AuthDb
db = record {
  push = record {
    users = visitor ∷ member ∷ [];
    sessions = visit ∷ [];
    participants = [];
    devices = phone ∷ [];
    deliveries = [];
  };
  identities = [];
  passports = [];
}

abbrev clock : Clock
clock = record {
  revoked = 10 * minute;
  retired = 10 * minute;
  revoked_again = 10 * minute;
  retired_again = 10 * minute;
  issued = 10 * minute;
  signed = 10 * minute;
}

abbrev entropy : Entropy
entropy = record {
  user_id = 11;
  session_id = 12;
  identity_id = 13;
  refresh_token = "second";
  jti = "j";
  salt = "s";
}

abbrev pub host : Host
host = record {
  crypto = record {
    digest = λ t. t;
    hash = λ salt password. password;
    verify = λ password hash. some (str_eq password hash);
    encode = λ secret algorithm p. "token";
    decode = λ secret algorithm issuer audience now token. some (whole_seconds issued);
  };
  texts = record { strip = λ t. t; casefold = lower };
  entropy = entropy;
  clock = clock;
}
  where
    issued : Payload
    issued = record {
      sub = 5;
      sid = 12;
      roles = some ("customer" ∷ []);
      guest_flag = some false;
      scope = some full;
      qr_restaurant_id = none;
      kind = "access";
      iss = "fofu";
      aud = "app";
      iat = 10 * minute;
      nbf = 10 * minute;
      exp = 25 * minute;
      jti = "j";
    }

abbrev third : Entropy
third = record entropy { refresh_token = "third" }

-- The result of the first rotation.
abbrev rotated : IssuedCredentials × AuthDb
rotated = (
  record {
    user = visitor;
    session = record visit { refresh_token_hash = "second"; last_used_at = 10 * minute };
    access_token = "token";
    expires_in = 1800;
    refresh_token = "second";
  },
  record db {
    push = record db.push {
      sessions = record visit { refresh_token_hash = "second"; last_used_at = 10 * minute } ∷ [];
    };
  },
)

rotates : rotate_refresh_token host settings "first" db ≡ ok rotated
unfolding rotate_refresh_token find any update_where
rotates = refl

rotate_refresh_token-spent_example :
    rotate_refresh_token (record host { entropy = third; clock = clock }) settings "first" rotated.1
    ≡ err invalid_refresh_token
unfolding count_if
rotate_refresh_token-spent_example =
    rotate_refresh_token-spent host settings "first" db third clock (omega arith) refl rotates

rotate_refresh_token-renewed_example :
    is_ok (
      rotate_refresh_token
        (record host { entropy = third; clock = clock })
        settings
        "second"
        rotated.1)
    ≡ true
unfolding any count_if
rotate_refresh_token-renewed_example =
    rotate_refresh_token-renewed host settings "first" db third clock (λ i. ground arith) rotates
      refl (omega arith)

rotate_refresh_token-qr_bounds_example :
    (rotated.0.session.expires_at ≡ visit.expires_at)
    × (60 ≤ rotated.0.expires_in)
    × (rotated.0.expires_in ≤ 60 * max 1 settings.qr_guest_token_minutes)
    × (rotated.0.expires_in * second ≤ max minute (visit.expires_at - clock.issued))
unfolding find
rotate_refresh_token-qr_bounds_example =
    rotate_refresh_token-qr_bounds host settings "first" db {s = visit} refl refl rotates

-- What a call that returns returns.
abbrev pub result_of :
    Result AuthServiceError (IssuedCredentials × AuthDb) → IssuedCredentials × AuthDb
result_of (ok r) = r
result_of (err e) = rotated

abbrev pub visitor_claims : AccessClaims
visitor_claims = record {
  user_id = 1;
  session_id = 2;
  roles = [];
  is_guest = true;
  scope = qr_guest;
  qr_restaurant_id = some 7;
}

abbrev pub now : Time
now = 11 * minute

abbrev tables_of : Result AuthServiceError (Bool × AuthDb) → AuthDb
tables_of (ok r) = r.1
tables_of (err e) = db

abbrev ended : AuthDb
ended = tables_of (revoke_sessions host (some 1) (some 2) none false db)

revoke_sessions-ends_example :
    (principal_of now visitor_claims ended ≡ err invalid_session)
    × All (λ d. is_bound (some 2) none d ≡ false) ended.push.devices
revoke_sessions-ends_example =
    revoke_sessions-ends host (some 1) (some 2) none db now visitor_claims {target = visit}
      (unfold revocation_target find in refl) refl
      (unfold revoke_sessions find any update_where select deactivate_session_devices in refl)

abbrev all_ended : AuthDb
all_ended = tables_of (revoke_sessions host (some 1) none none true db)

revoke_sessions_everywhere_example :
    (principal_of now visitor_claims all_ended ≡ err invalid_session)
    × All (λ d. is_bound none (some 1) d ≡ false) all_ended.push.devices
revoke_sessions_everywhere_example =
    revoke_sessions_everywhere host 1 none none db now visitor_claims {changed = true} refl (
      unfold revoke_sessions find any update_where select count_if deactivate_session_devices in
      refl)
