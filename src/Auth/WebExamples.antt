-- ===== src/Auth/WebExamples.antt =====
-- The login by the web client of app/api/auth.py at concrete tables: an administrator and a customer.
use fofu_backend.Base.{ℕ, ◌≡◌, refl, ◌*◌, false, none, some, [], ◌∷◌, find, any, Result, ok, err}
use fofu_backend.Utils.Text.{lower}
use fofu_backend.Push.Rows.{User, web, full}
use fofu_backend.Auth.Rows.{AuthDb, invalid_refresh_token, minute, set_users}
use fofu_backend.Auth.Tokens.{AccessClaims}
use fofu_backend.Auth.Issue.{IssuedCredentials, login_user, rotate_refresh_token}
use fofu_backend.Auth.Principal.{invalid_session, session_by_id, principal_of}
use fofu_backend.Auth.Handlers.{AuthResponse, AuthHttpError, admin_login_separated, login}
use fofu_backend.Auth.Separation.{IsForWeb, login-separated, login-IsForWeb}
use fofu_backend.Auth.Examples.{settings, member, db, host, result_of}

abbrev administrator : User
administrator = record member { id = 6; email = some "root@fofu.app"; roles = "admin" ∷ [] }

abbrev tables : AuthDb
tables = set_users (administrator ∷ member ∷ []) db

abbrev claims : AccessClaims
claims = record {
  user_id = 6;
  session_id = 12;
  roles = "admin" ∷ [];
  is_guest = false;
  scope = full;
  qr_restaurant_id = none;
}

abbrev now : ℕ
now = 11 * minute

abbrev opened : IssuedCredentials × AuthDb
opened = result_of (login_user host settings "root@fofu.app" "pw" web none full tables)

opens : login_user host settings "root@fofu.app" "pw" web none full tables ≡ ok opened
unfolding login_user find any lower
opens = refl

login-separated_example :
    let handled = login host settings "root@fofu.app" "pw" web none now tables in
    (handled.reply ≡ err admin_login_separated)
    × (principal_of now claims handled.tables ≡ err invalid_session)
    × (rotate_refresh_token
          (record host { entropy = record host.entropy { refresh_token = "third" } })
          settings
          opened.0.refresh_token
          handled.tables
        ≡ err invalid_refresh_token)
login-separated_example =
    login-separated host settings "root@fofu.app" "pw" none now now tables claims
      (record host.entropy { refresh_token = "third" }) host.clock
      (unfold session_by_id find in refl) opens (unfold any login_user find lower in refl) refl

abbrev body_of : Result AuthHttpError AuthResponse → AuthResponse → AuthResponse
body_of (ok body) other = body
body_of (err e) other = other

abbrev body : AuthResponse
body = body_of (login host settings "a@fofu.app" "pw" web none now tables).reply (record {
  access_token = "";
  expires_in = 0;
  refresh_token = some "";
  refresh_expires_at = 0;
  scope = full;
  user = record {
    id = 0;
    email = none;
    display_name = "";
    home_country_code = none;
    locale = "";
    is_guest = false;
    roles = [];
  };
})

answers : (login host settings "a@fofu.app" "pw" web none now tables).reply ≡ ok body
unfolding login login_user find any lower
answers = refl

login-IsForWeb_example : IsForWeb body
login-IsForWeb_example = login-IsForWeb host settings "a@fofu.app" "pw" none now tables answers
