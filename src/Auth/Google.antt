-- ===== src/Auth/Google.antt =====
-- app/services/auth.py: the sign-in with Google, which logs in, registers, upgrades a guest or links.
use fofu_backend.Base.{
  Uuid, String, Bool, true, false, not, ◌&&◌, ◌||◌, Option, none, some, List, [], ◌∷◌, ◌++◌, ◌==◌,
  is_none, str_eq, find, any, update_where, Result, ok, raise_if, or_raise, ◌>>=◌, ◌>>◌,
}
use fofu_backend.Push.Rows.{User, ClientType, full}
use fofu_backend.Utils.Locale.{normalize_locale}
use fofu_backend.Auth.Rows.{
  AuthIdentity, AuthDb, AuthSettings, AuthServiceError, google_identity_already_linked,
  google_identity_conflict, google_account_link_required, account_inactive, integrity_error, Host,
  has_email, set_users,
}
use fofu_backend.Auth.Revoke.{
  revoke_active_sessions_for_guest_upgrade, revoke_replaced_session,
  revoke_replaced_refresh_session,
}
use fofu_backend.Auth.Issue.{Issued, issue_session, insert_user, user_by_id}
use fofu_backend.Auth.Register.{
  on_integrity_error, with_customer, is_email_of_other, claim_guest_upgrade,
}
use fofu_backend.Auth.Identity.{Google, VerifiedGoogleIdentity, verify_google_id_token}

-- Columns of the two unique constraints of `auth_identities`.
abbrev pub has_subject : String → AuthIdentity → Bool
has_subject subject i = str_eq i.provider "google" && str_eq i.subject subject

abbrev pub is_google_of : Uuid → AuthIdentity → Bool
is_google_of user_id i = i.user_id == user_id && str_eq i.provider "google"

-- `refreshed_current_user`: nobody, or the row as it is now.
unfoldable pub reload_current_user : Option User → AuthDb → Result AuthServiceError (Option User)
unfolding user_by_id
reload_current_user none db = ok none
reload_current_user (some u) db = or_raise (user_by_id u.id db) account_inactive >>= λ fresh.
    raise_if (not fresh.is_active) account_inactive >> ok (some fresh)

-- The two statements that retire what the client gives up, where it is signed in.
unfoldable pub revoke_replaced : Host → Option User → Option Uuid → Option String → AuthDb → AuthDb
unfolding revoke_replaced_session revoke_replaced_refresh_session
revoke_replaced host none session_id token db = db
revoke_replaced host (some u) session_id token db =
    revoke_replaced_refresh_session host u.id token
      (revoke_replaced_session host u.id session_id db)

-- `current_user is not None and not current_user.is_guest and current_user.id != user.id`
abbrev pub is_other_account : Option User → Uuid → Bool
is_other_account none user_id = false
is_other_account (some u) user_id = not u.is_guest && not (u.id == user_id)

-- `user.password_hash is None and email_owner_id is None`
unfoldable pub takes_email : VerifiedGoogleIdentity → User → AuthDb → Bool
takes_email google_identity user db =
    is_none user.password_hash
    && not (any (is_email_of_other google_identity.email user.id) db.push.users)

abbrev pub with_email : Bool → String → User → User
with_email true email u = record u { email = some email }
with_email false email u = u

-- The emails that Google gives, for the identity and the user.
unfoldable pub refresh_emails : VerifiedGoogleIdentity → AuthIdentity → User → AuthDb → AuthDb
unfolding takes_email
refresh_emails google_identity identity user db =
    set_users
      (update_where (λ (u : User). u.id == user.id)
        (with_email (takes_email google_identity user db) google_identity.email) db.push.users)
      (record db {
        identities =
            update_where (λ (i : AuthIdentity). i.id == identity.id)
              (λ i. record i { email = some google_identity.email }) db.identities;
      })

-- The branch where the identity is known. The row of `current_user` is read again.
unfoldable pub login_identity :
    Host
    → AuthSettings
    → ClientType
    → Option String
    → VerifiedGoogleIdentity
    → Option User
    → Option Uuid
    → Option String
    → AuthIdentity
    → AuthDb
    → Issued
unfolding user_by_id takes_email refresh_emails revoke_replaced on_integrity_error issue_session
login_identity host settings client_type device_id google_identity current session_id token identity
      db =
    or_raise (user_by_id identity.user_id db) account_inactive >>= λ user.
    raise_if (is_other_account current user.id) google_identity_already_linked
    >> (raise_if (not user.is_active) account_inactive
        >> on_integrity_error google_identity_conflict (
            issue_session host settings
              (with_email (takes_email google_identity user db) google_identity.email user)
              client_type device_id full none none none
              (revoke_replaced host current session_id token
                (refresh_emails google_identity identity user db))))

-- `email_owner is not None and email_owner.id != current_user.id`
abbrev pub is_owned_by_other : Option User → Uuid → Bool
is_owned_by_other none user_id = false
is_owned_by_other (some owner) user_id = not (owner.id == user_id)

unfoldable pub google_user : Host → String → VerifiedGoogleIdentity → User
unfolding normalize_locale
google_user host locale google_identity = record {
  id = host.entropy.user_id;
  email = some google_identity.email;
  password_hash = none;
  display_name = google_identity.display_name;
  home_country_code = none;
  locale = normalize_locale (some locale);
  is_guest = false;
  is_active = true;
  roles = "customer" ∷ [];
}

unfoldable pub upgrade_google_guest : String → VerifiedGoogleIdentity → List String → User → User
unfolding normalize_locale with_customer
upgrade_google_guest locale google_identity roles u = record u {
  email = some google_identity.email;
  display_name = google_identity.display_name;
  locale = normalize_locale (some locale);
  is_guest = false;
  roles = with_customer roles;
}

-- The user to whom the new identity is given, in the branch where it is unknown; `was_guest` is the
-- flag of the request's principal.
unfoldable pub linked_user :
    Host
    → String
    → VerifiedGoogleIdentity
    → Option User
    → Bool
    → Option Uuid
    → Option String
    → AuthDb
    → Result AuthServiceError (User × AuthDb)
unfolding google_user upgrade_google_guest insert_user claim_guest_upgrade
    revoke_active_sessions_for_guest_upgrade revoke_replaced
linked_user host locale google_identity none was_guest session_id token db =
    raise_if (any (has_email google_identity.email) db.push.users) google_account_link_required
    >> ok (
      google_user host locale google_identity,
      insert_user (google_user host locale google_identity) db,
    )
linked_user host locale google_identity (some current) true session_id token db =
    raise_if (is_owned_by_other (find (has_email google_identity.email) db.push.users) current.id)
      google_account_link_required
    >> (claim_guest_upgrade current.id google_identity.email
          (upgrade_google_guest locale google_identity current.roles) db
        >>= λ claimed.
            ok (claimed.0, revoke_active_sessions_for_guest_upgrade host claimed.0.id claimed.1))
linked_user host locale google_identity (some current) false session_id token db =
    raise_if (is_owned_by_other (find (has_email google_identity.email) db.push.users) current.id)
      google_account_link_required
    >> (raise_if (not current.is_active) account_inactive
        >> ok (current, revoke_replaced host (some current) session_id token db))

-- `db.add(AuthIdentity(...))`, under the two unique constraints.
unfoldable pub insert_identity :
    Host → VerifiedGoogleIdentity → Uuid → AuthDb → Result AuthServiceError AuthDb
insert_identity host google_identity user_id db =
    raise_if
      (any (has_subject google_identity.subject) db.identities
        || any (is_google_of user_id) db.identities)
      integrity_error
    >> ok (record db {
      identities =
          db.identities
          ++ record {
            id = host.entropy.identity_id;
            user_id = user_id;
            provider = "google";
            subject = google_identity.subject;
            email = some google_identity.email;
          }
            ∷ [];
    })

-- A registered user has another Google account.
unfoldable pub has_google : Option User → Bool → AuthDb → Bool
has_google none was_guest db = false
has_google (some current) true db = false
has_google (some current) false db = any (is_google_of current.id) db.identities

unfoldable pub link_identity :
    Host
    → AuthSettings
    → String
    → ClientType
    → Option String
    → VerifiedGoogleIdentity
    → Option User
    → Bool
    → Option Uuid
    → Option String
    → AuthDb
    → Issued
unfolding has_google linked_user insert_identity on_integrity_error issue_session
link_identity host settings locale client_type device_id google_identity current was_guest
      session_id token db =
    raise_if (has_google current was_guest db) google_identity_already_linked
    >> on_integrity_error google_identity_conflict (
        linked_user host locale google_identity current was_guest session_id token db >>= λ r.
        insert_identity host google_identity r.0.id r.1 >>= λ db'.
        issue_session host settings r.0 client_type device_id full none none none db')

abbrev pub was_guest_of : Option User → Bool
was_guest_of none = false
was_guest_of (some u) = u.is_guest

-- The two branches after the search for the identity.
unfoldable pub login_or_link :
    Host
    → AuthSettings
    → String
    → ClientType
    → Option String
    → VerifiedGoogleIdentity
    → Option User
    → Bool
    → Option Uuid
    → Option String
    → Option AuthIdentity
    → AuthDb
    → Issued
unfolding login_identity link_identity
login_or_link host settings locale client_type device_id google_identity current was_guest
      session_id token none db =
    link_identity host settings locale client_type device_id google_identity current was_guest
      session_id token db
login_or_link host settings locale client_type device_id google_identity current was_guest
      session_id token (some identity) db =
    login_identity host settings client_type device_id google_identity current session_id token
      identity db

-- `login_google_user`; its statements read one state of the tables.
unfoldable pub login_google_user :
    Google
    → Host
    → AuthSettings
    → String
    → String
    → ClientType
    → Option String
    → Option User
    → Option Uuid
    → Option String
    → AuthDb
    → Issued
unfolding verify_google_id_token reload_current_user login_or_link
login_google_user google host settings id_token locale client_type device_id current_user session_id
      token db =
    verify_google_id_token google host.texts settings id_token >>= λ google_identity.
    reload_current_user current_user db >>= λ current.
    login_or_link host settings locale client_type device_id google_identity current
      (was_guest_of current_user) session_id token
      (find (has_subject google_identity.subject) db.identities) db
