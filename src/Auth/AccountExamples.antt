-- ===== src/Auth/AccountExamples.antt =====
-- Registration, login and the sign-in with Google of app/services/auth.py at the tables of the other
-- examples.
use fofu_backend.Base.{
  Mem, eq_iff, ◌⊎◌, ◌≡◌, refl, true, false, none, some, arith, All, find, any, select, count_if,
  update_where, ok, err,
}
use fofu_backend.Utils.Text.{lower, before}
use fofu_backend.Push.Rows.{User, ios, full}
use fofu_backend.Push.Cancel.{is_bound, deactivate_session_devices}
use fofu_backend.Auth.Rows.{AuthDb, Entropy, email_already_registered, invalid_credentials}
use fofu_backend.Auth.Tokens.{access_payload, claims_of}
use fofu_backend.Auth.Issue.{
  IssuedCredentials, issue_session, login_user, user_by_id, new_session, sign,
}
use fofu_backend.Auth.Register.{Registration, register_user}
use fofu_backend.Auth.Identity.{
  Claim, Google, GoogleClaims, verified, VerifiedGoogleIdentity, verify_google_id_token,
}
use fofu_backend.Auth.Google.{login_google_user}
use fofu_backend.Auth.Principal.{
  session_by_id, principal_of, get_optional_principal, invalid_session,
}
use fofu_backend.Auth.Upgrade.{register_user-upgraded}
use fofu_backend.Auth.Entry.{issued_payload, whole_seconds, bearer, issue_session-principal}
use fofu_backend.Auth.Login.{IsEntitled, login_user-error}
use fofu_backend.Auth.Registered.{register_user-login}
use fofu_backend.Auth.Emails.{HasOne}
use fofu_backend.Auth.Linking.{login_google_user-HasOne}
use fofu_backend.Auth.Trust.{IsTrusted, verify_google_id_token-IsTrusted}
use fofu_backend.Auth.Examples.{settings, visitor, member, db, host, visitor_claims, now, result_of}

abbrev form : Registration
form = record {
  email = "B@fofu.app";
  password = "pass word";
  display_name = "B";
  locale = "fr";
  home_country_code = none;
}

abbrev registered : IssuedCredentials × AuthDb
registered = result_of (register_user host settings form ios none (some visitor) db db)

registers : register_user host settings form ios none (some visitor) db db ≡ ok registered
unfolding register_user find any update_where select count_if deactivate_session_devices
registers = refl

register_user-upgraded_example :
    (principal_of now visitor_claims registered.1 ≡ err invalid_session)
    × All (λ d. is_bound none (some 1) d ≡ false) registered.1.push.devices
register_user-upgraded_example =
    register_user-upgraded host settings form ios none visitor db db now visitor_claims refl refl
      registers

abbrev later : Entropy
later = record host.entropy { session_id = 21; refresh_token = "third" }

abbrev retry : Registration
retry = record form { email = "b@Fofu.App"; password = "other" }

register_user-login_example :
    (register_user (record host { entropy = later }) settings retry ios none none registered.1 db
      ≡ err email_already_registered)
    × (r : IssuedCredentials × AuthDb) × (login_user
          (record host { entropy = later })
          settings
          "B@fofu.app"
          "pass word"
          ios
          none
          full
          registered.1
        ≡ ok r)
    × (r.0.user ≡ registered.0.user)
register_user-login_example =
    register_user-login host settings form retry ios none (some visitor) none db db db later
      host.clock (λ i. unfold count_if in ground arith)
      (λ empty. absurd (ground (arith, (eq_iff "pass word" "").1 empty))) refl
      (unfold lower in refl)
      (unfold any update_where select count_if find deactivate_session_devices register_user in
        refl)
      registers

login_user-error_example :
    ((u : User) × Mem u db.push.users
      × IsEntitled host "A@fofu.app" "pw" u
      × (r : IssuedCredentials × AuthDb) × (login_user host settings "A@fofu.app" "pw" ios none full
            db
          ≡ ok r)
      × (r.0.user ≡ u))
    ⊎ ((login_user host settings "A@fofu.app" "pw" ios none full db ≡ err invalid_credentials)
        × All (λ u. ¬ IsEntitled host "A@fofu.app" "pw" u) db.push.users)
login_user-error_example =
    login_user-error host settings "A@fofu.app" "pw" ios none full db
      (unfold count_if lower in omega arith) (unfold any in refl)

abbrev logged_in : IssuedCredentials × AuthDb
logged_in = result_of (issue_session host settings member ios none full none none none db)

issue_session-principal_example :
    get_optional_principal host settings now now
      (some (bearer logged_in.0.access_token))
      logged_in.1
    ≡ ok (
        some (record {
          user = member;
          session = logged_in.0.session;
          claims = claims_of (whole_seconds (issued_payload host settings member full none none));
        }))
unfolding find any issue_session
issue_session-principal_example =
    issue_session-principal host settings member ios none full none none none db now now
      (λ _ _. unfold access_payload in refl) (unfold lower in refl) (unfold user_by_id in refl) refl
      (unfold session_by_id in refl) (unfold access_payload in omega arith)
      (unfold access_payload in omega arith) (unfold sign new_session in omega arith) refl

abbrev claims : GoogleClaims
claims = record {
  iss = Claim.text "accounts.google.com";
  aud = Claim.text "client";
  sub = Claim.text "77";
  email_verified = Claim.truth true;
  email = Claim.text "C@fofu.app";
  name = Claim.other;
}

abbrev google : Google
google = record {
  verify_oauth2_token = λ t. verified claims;
  validate_email = λ claim. some "C@fofu.app";
}

abbrev identity : VerifiedGoogleIdentity
identity = record { subject = "77"; email = "c@fofu.app"; display_name = "c" }

verify_google_id_token-IsTrusted_example :
    (c : GoogleClaims) × (google.verify_oauth2_token (host.texts.strip "t") ≡ verified c)
    × IsTrusted google host.texts settings.google_oauth_client_ids c identity
verify_google_id_token-IsTrusted_example =
    verify_google_id_token-IsTrusted google host.texts settings "t" {identity = identity}
      (unfold verify_google_id_token any lower before in refl)

abbrev signed_in : IssuedCredentials × AuthDb
signed_in =
    result_of (login_google_user google host settings "t" "fr" ios none (some visitor) none none db)

signs_in :
    login_google_user google host settings "t" "fr" ios none (some visitor) none none db
    ≡ ok signed_in
unfolding login_google_user find any update_where select count_if lower before
    deactivate_session_devices
signs_in = refl

login_google_user-HasOne_example : HasOne "c@fofu.app" signed_in.1.push.users
unfolding count_if
login_google_user-HasOne_example =
    login_google_user-HasOne "c@fofu.app" google host settings "t" "fr" ios none (some visitor) none
      none db (λ i. ground arith) (unfold any in omega arith) signs_in
