-- ===== src/Auth/Emails.antt =====
-- The unique emails of users, and the statements of app/services/auth.py that write users.
use fofu_backend.Base.{
  Uuid, Time, ◌≡◌, ◌≤◌, subst, sym, inl, inr, String, Bool, true, false, not, Option, none, some,
  List, [], ◌∷◌, ◌++◌, arith, ◌==◌, str_eq, eq_iff, any, count_if, update_where, count_if-update-le,
  count_if-add-le, Bool-cases, Returns, Returns-or_raise, Returns-raise_if,
}
use fofu_backend.Push.Rows.{AuthSession, User, ClientType, Scope}
use fofu_backend.Push.Cancel.{deactivate_session_devices}
use fofu_backend.Auth.Rows.{
  AuthDb, AuthSettings, Host, has_hash, has_email, set_users, guest_upgrade_conflict,
  integrity_error,
}
use fofu_backend.Auth.Revoke.{deactivate_devices_of, revoke_where}
use fofu_backend.Auth.Issue.{IssuedCredentials, issue_session, insert_user, user_by_id}
use fofu_backend.Auth.Register.{is_claimable, is_email_of_other, claim_guest_upgrade}

abbrev pub is_user : Uuid → User → Bool
is_user i u = u.id == i

module _ (e : String) where
  -- At most one user has the email `e`.
  abbrev pub HasOne : List User → Type 0
  HasOne users = count_if (has_email e) users ≤ 1

  HasOne-insert :
      (email : String) (user : User) (users : List User)
      → user.email ≡ some email
      → any (has_email email) users ≡ false
      → HasOne users
      → HasOne (users ++ user ∷ [])
  HasOne-insert email user users own free one =
      count_if-add-le (has_email e) users user one
        (λ h. subst (λ t. any (has_email t) users ≡ false) ((eq_iff email e).0 (rw own at h)) free)

  -- An update of one user that writes an email which no other user has, or leaves emails alone.
  pub HasOne-update :
      (email : String) (user_id : Uuid) (p : User → Bool) (f : User → User) (users : List User)
      → ((u : User) → p u ≡ true → is_user user_id u ≡ true)
      → ((u : User) → (f u).email ≡ some email)
      → any (is_email_of_other email user_id) users ≡ false
      → count_if (is_user user_id) users ≤ 1
      → HasOne users
      → HasOne (update_where p f users)
  HasOne-update email user_id p f users own writes free alone one =
      elim (Bool-cases (str_eq email e)) [
        | inl same ↦
            let le =
              count_if-update-le (has_email e) (is_user user_id) (is_email_of_other email user_id) p
                f users (λ u hit _. own u hit)
                (λ u other has. ground (
                  arith,
                  other,
                  subst (λ t. has_email t u ≡ true) (sym ((eq_iff email e).0 same)) has,
                ))
                free in
            omega (arith, le)
        | inr differs ↦
            let le =
              count_if-update-le (has_email e) (has_email e) (is_email_of_other email user_id) p f
                users (λ u hit has. absurd (ground (arith, differs, rw (writes u) at has)))
                (λ u other has. has) free in
            omega (arith, le)
      ]

  pub insert_user-HasOne :
      (email : String) (user : User) (db : AuthDb)
      → user.email ≡ some email
      → any (has_email email) db.push.users ≡ false
      → HasOne db.push.users
      → HasOne (insert_user user db).push.users
  unfolding insert_user
  insert_user-HasOne email user db own free one =
      HasOne-insert email user db.push.users own free one

  pub claim_guest_upgrade-HasOne :
      (user_id : Uuid) (email : String) (upgrade : User → User) (db : AuthDb)
      → ((u : User) → (upgrade u).email ≡ some email)
      → count_if (is_user user_id) db.push.users ≤ 1
      → HasOne db.push.users
      → Returns (λ r. HasOne r.1.push.users) (claim_guest_upgrade user_id email upgrade db)
  unfolding claim_guest_upgrade
  claim_guest_upgrade-HasOne user_id email upgrade db writes alone one =
      Returns-raise_if P (not (count_if (is_claimable user_id) db.push.users == 1))
        guest_upgrade_conflict _
        λ claimable.
          Returns-raise_if P (any (is_email_of_other email user_id) db.push.users) integrity_error _
            λ free.
              Returns-or_raise P
                (user_by_id user_id
                  (set_users (update_where (is_claimable user_id) upgrade db.push.users) db))
                guest_upgrade_conflict _
                λ user found.
                  HasOne-update email user_id (is_claimable user_id) upgrade db.push.users
                    (λ u hit. ground (arith, hit)) writes free alone one
    where
      P : User × AuthDb → Type 0
      P r = HasOne r.1.push.users

  -- Sessions and devices have no emails.
  pub revoked-users :
      (p : AuthSession → Bool) (session_id user_id : Option Uuid) (revoked retired : Time)
      (db : AuthDb)
      → (deactivate_devices_of session_id user_id retired (revoke_where p revoked db)).0.push.users
        ≡ db.push.users
  unfolding deactivate_devices_of deactivate_session_devices revoke_where
  revoked-users p session_id user_id revoked retired db = ground arith

  pub issue_session-HasOne :
      (host : Host) (settings : AuthSettings) (user : User) (client_type : ClientType)
      (device_id : Option String) (scope : Scope) (db : AuthDb)
      → HasOne db.push.users
      → Returns
          (λ r. HasOne r.1.push.users)
          (issue_session host settings user client_type device_id scope none none none db)
  unfolding issue_session
  issue_session-HasOne host settings user client_type device_id scope db one =
      Returns-raise_if (λ (r : IssuedCredentials × AuthDb). HasOne r.1.push.users)
        (any (has_hash (host.crypto.digest host.entropy.refresh_token)) db.push.sessions)
        integrity_error _ (λ free. one)
