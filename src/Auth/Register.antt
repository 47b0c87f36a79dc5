-- ===== src/Auth/Register.antt =====
-- app/services/auth.py: registration, of a new account or as the upgrade of a guest.
use fofu_backend.Base.{
  Uuid, String, Bool, true, false, not, ◌&&◌, Option, none, some, List, [], ◌∷◌, ◌++◌, ◌==◌, str_eq,
  any, count_if, update_where, if◌then◌else◌, Result, ok, err, raise_if, or_raise, ◌>>=◌, ◌>>◌,
}
use fofu_backend.Push.Rows.{User, ClientType, full}
use fofu_backend.Utils.Locale.{normalize_locale}
use fofu_backend.Auth.Rows.{
  AuthDb, AuthSettings, AuthServiceError, email_already_registered, already_registered,
  guest_upgrade_conflict, integrity_error, Host, has_email, set_users,
}
use fofu_backend.Auth.Revoke.{revoke_active_sessions_for_guest_upgrade}
use fofu_backend.Auth.Issue.{Issued, issue_session, insert_user, user_by_id, normal_email}

abbrev pub raised_as : AuthServiceError → AuthServiceError → AuthServiceError
raised_as error integrity_error = error
raised_as error e = e

-- `except IntegrityError: raise error`
unfoldable pub on_integrity_error {ℓ} :
    {A : Type ℓ} → AuthServiceError → Result AuthServiceError A → Result AuthServiceError A
on_integrity_error error (ok a) = ok a
on_integrity_error error (err e) = err (raised_as error e)

-- `if "customer" not in roles: roles.append("customer")`
unfoldable pub with_customer : List String → List String
with_customer roles =
    if any (λ r. str_eq r "customer") roles then roles else roles ++ "customer" ∷ []

abbrev pub is_claimable : Uuid → User → Bool
is_claimable user_id u = u.id == user_id && (u.is_guest && u.is_active)

-- Another user has the email; `users.email` is unique.
abbrev pub is_email_of_other : String → Uuid → User → Bool
is_email_of_other email user_id u = not (u.id == user_id) && has_email email u

-- `_claim_guest_upgrade`, where `upgrade` writes the values, `email` among them.
unfoldable pub claim_guest_upgrade :
    Uuid → String → (User → User) → AuthDb → Result AuthServiceError (User × AuthDb)
unfolding user_by_id
claim_guest_upgrade user_id email upgrade db =
    let db' = set_users (update_where (is_claimable user_id) upgrade db.push.users) db in
    raise_if (not (count_if (is_claimable user_id) db.push.users == 1)) guest_upgrade_conflict
    >> (raise_if (any (is_email_of_other email user_id) db.push.users) integrity_error
        >> (or_raise (user_by_id user_id db') guest_upgrade_conflict >>= λ user. ok (user, db')))

-- The form of `register_user`, the email being in its normal form.
pub record Registration : Type 0 where
  pub email : String
  pub password : String
  pub display_name : String
  pub locale : String
  pub home_country_code : Option String

unfoldable pub upgrade_guest : Host → Registration → List String → User → User
unfolding normalize_locale with_customer
upgrade_guest host form roles u = record u {
  email = some form.email;
  password_hash = some (host.crypto.hash host.entropy.salt form.password);
  display_name = host.texts.strip form.display_name;
  locale = normalize_locale (some form.locale);
  home_country_code = form.home_country_code;
  is_guest = false;
  roles = with_customer roles;
}

unfoldable pub new_user : Host → Registration → User
unfolding normalize_locale
new_user host form = record {
  id = host.entropy.user_id;
  email = some form.email;
  password_hash = some (host.crypto.hash host.entropy.salt form.password);
  display_name = host.texts.strip form.display_name;
  home_country_code = form.home_country_code;
  locale = normalize_locale (some form.locale);
  is_guest = false;
  is_active = true;
  roles = "customer" ∷ [];
}

-- The user row of the registration: `guest_user` is as the request's principal was loaded.
unfoldable pub registered_user :
    Host → Registration → Option User → AuthDb → Result AuthServiceError (User × AuthDb)
unfolding new_user upgrade_guest insert_user claim_guest_upgrade
    revoke_active_sessions_for_guest_upgrade
registered_user host form none db =
    raise_if (any (has_email form.email) db.push.users) integrity_error
    >> ok (new_user host form, insert_user (new_user host form) db)
registered_user host form (some guest_user) db =
    raise_if (not guest_user.is_guest) already_registered
    >> (claim_guest_upgrade guest_user.id form.email (upgrade_guest host form guest_user.roles) db
        >>= λ claimed.
            ok (claimed.0, revoke_active_sessions_for_guest_upgrade host claimed.0.id claimed.1))

-- `register_user`: `seen` are the tables that the first query reads, and `db` those that the
-- statements after it change, where other requests may have written in between.
unfoldable pub register_user :
    Host
    → AuthSettings
    → Registration
    → ClientType
    → Option String
    → Option User
    → AuthDb
    → AuthDb
    → Issued
unfolding registered_user issue_session on_integrity_error
register_user host settings form client_type device_id guest_user seen db =
    let normalized = record form { email = normal_email host.texts form.email } in
    raise_if (any (has_email normalized.email) seen.push.users) email_already_registered
    >> on_integrity_error email_already_registered (
        registered_user host normalized guest_user db >>= λ r.
        issue_session host settings r.0 client_type device_id full none none none r.1)
