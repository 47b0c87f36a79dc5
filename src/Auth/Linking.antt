-- ===== src/Auth/Linking.antt =====
-- The sign-in with Google in app/services/auth.py: emails and Google accounts stay with one user each.
use fofu_backend.Base.{
  Uuid, ◌≡◌, ◌≤◌, refl, String, Bool, true, false, not, ◌&&◌, ◌||◌, Option, none, some, List, arith,
  ◌==◌, find, any, count_if, update_where, is_none, ok, Returns, Returns-bind, Returns-after,
  Returns-or_raise, Returns-raise_if, Returns-elim, ◌∙◌, update_where-same,
}
use fofu_backend.Push.Rows.{User, ClientType, full}
use fofu_backend.Auth.Rows.{
  AuthIdentity, AuthDb, AuthSettings, Host, has_email, integrity_error,
  google_identity_already_linked, google_identity_conflict, google_account_link_required,
  account_inactive, nonempty,
}
use fofu_backend.Auth.Revoke.{
  revoke_active_sessions_for_guest_upgrade, revoke_replaced_session, revoke_refresh_token,
  revoke_replaced_refresh_session, session_id_of, is_replaced,
}
use fofu_backend.Auth.Issue.{IssuedCredentials, user_by_id}
use fofu_backend.Auth.Register.{is_email_of_other, claim_guest_upgrade}
use fofu_backend.Auth.Identity.{Google, VerifiedGoogleIdentity, verify_google_id_token}
use fofu_backend.Auth.Google.{
  has_subject, is_google_of, reload_current_user, revoke_replaced, is_other_account, takes_email,
  with_email, refresh_emails, login_identity, is_owned_by_other, google_user, upgrade_google_guest,
  linked_user, insert_identity, has_google, link_identity, was_guest_of, login_or_link,
  login_google_user,
}
use fofu_backend.Auth.Upgrade.{Returns-on_integrity_error}
use fofu_backend.Auth.Emails.{
  is_user, HasOne, HasOne-update, insert_user-HasOne, claim_guest_upgrade-HasOne, revoked-users,
  issue_session-HasOne,
}

module _ (e : String) where
  refresh_token-users :
      (host : Host) (user_id : Uuid) (token : Option String) (db : AuthDb)
      → (revoke_refresh_token host user_id token db).push.users ≡ db.push.users
  unfolding revoke_refresh_token
  refresh_token-users host user_id none db = refl
  refresh_token-users host user_id (some t) db =
      revoked-users e (is_replaced host.crypto user_id t)
        (session_id_of (
          find (λ s. is_replaced host.crypto user_id t s && is_none s.revoked_at) db.push.sessions))
        none host.clock.revoked_again host.clock.retired_again db

  session-users :
      (host : Host) (user_id : Uuid) (session_id : Option Uuid) (db : AuthDb)
      → (revoke_replaced_session host user_id session_id db).push.users ≡ db.push.users
  unfolding revoke_replaced_session
  session-users host user_id none db = refl
  session-users host user_id (some i) db =
      revoked-users e (λ s. s.id == i && s.user_id == user_id) (some i) none host.clock.revoked
        host.clock.retired db

  revoke_replaced-users :
      (host : Host) (current : Option User) (session_id : Option Uuid) (token : Option String)
      (db : AuthDb)
      → (revoke_replaced host current session_id token db).push.users ≡ db.push.users
  unfolding revoke_replaced revoke_replaced_refresh_session
  revoke_replaced-users host none session_id token db = refl
  revoke_replaced-users host (some u) session_id token db =
      refresh_token-users host u.id (nonempty token)
        (revoke_replaced_session host u.id session_id db)
      ∙ session-users host u.id session_id db

  with_email-HasOne :
      (email : String) (user_id : Uuid) (takes : Bool) (users : List User)
      → (takes ≡ true → any (is_email_of_other email user_id) users ≡ false)
      → count_if (is_user user_id) users ≤ 1
      → HasOne e users
      → HasOne e (update_where (is_user user_id) (with_email takes email) users)
  with_email-HasOne email user_id true users free alone one =
      HasOne-update e email user_id (is_user user_id) (with_email true email) users (λ u own. own)
        (λ u. refl) (free refl) alone one
  with_email-HasOne email user_id false users free alone one =
      rw (update_where-same (is_user user_id) (with_email false email) users (λ u. refl)) one

  refresh_emails-HasOne :
      (google_identity : VerifiedGoogleIdentity) (identity : AuthIdentity) (user : User)
      (db : AuthDb)
      → count_if (is_user user.id) db.push.users ≤ 1
      → HasOne e db.push.users
      → HasOne e (refresh_emails google_identity identity user db).push.users
  unfolding refresh_emails takes_email
  refresh_emails-HasOne google_identity identity user db alone one =
      with_email-HasOne google_identity.email user.id
        (is_none user.password_hash
          && not (any (is_email_of_other google_identity.email user.id) db.push.users))
        db.push.users (λ takes. ground (arith, takes)) alone one

  login_identity-HasOne :
      (host : Host) (settings : AuthSettings) (client_type : ClientType) (device_id : Option String)
      (google_identity : VerifiedGoogleIdentity) (current : Option User) (session_id : Option Uuid)
      (token : Option String) (identity : AuthIdentity) (db : AuthDb)
      → ((i : Uuid) → count_if (is_user i) db.push.users ≤ 1)
      → HasOne e db.push.users
      → Returns
          (λ r. HasOne e r.1.push.users)
          (login_identity host settings client_type device_id google_identity current session_id
            token identity db)
  unfolding login_identity
  login_identity-HasOne host settings client_type device_id google_identity current session_id token
        identity db alone one =
      Returns-or_raise P (user_by_id identity.user_id db) account_inactive _ λ user known.
        Returns-raise_if P (is_other_account current user.id) google_identity_already_linked _
          λ own. Returns-raise_if P (not user.is_active) account_inactive _ λ active.
            Returns-on_integrity_error P google_identity_conflict _ (
              issue_session-HasOne e host settings _ client_type device_id full _ (
                rw
                  (revoke_replaced-users host current session_id token
                    (refresh_emails google_identity identity user db))
                  (refresh_emails-HasOne google_identity identity user db (alone user.id) one)))
    where
      P : IssuedCredentials × AuthDb → Type 0
      P r = HasOne e r.1.push.users

  linked_user-HasOne :
      (host : Host) (locale : String) (google_identity : VerifiedGoogleIdentity)
      (current : Option User) (was_guest : Bool) (session_id : Option Uuid) (token : Option String)
      (db : AuthDb)
      → ((i : Uuid) → count_if (is_user i) db.push.users ≤ 1)
      → HasOne e db.push.users
      → Returns
          (λ r. HasOne e r.1.push.users)
          (linked_user host locale google_identity current was_guest session_id token db)
  unfolding linked_user
  linked_user-HasOne host locale google_identity none was_guest session_id token db alone one =
      Returns-raise_if (λ (r : User × AuthDb). HasOne e r.1.push.users)
        (any (has_email google_identity.email) db.push.users) google_account_link_required _
        (λ free.
          insert_user-HasOne e google_identity.email (google_user host locale google_identity) db
            (unfold google_user in refl) free one)
  linked_user-HasOne host locale google_identity (some u) true session_id token db alone one =
      Returns-raise_if (λ (r : User × AuthDb). HasOne e r.1.push.users)
        (is_owned_by_other (find (has_email google_identity.email) db.push.users) u.id)
        google_account_link_required _
        λ unowned.
          Returns-bind (λ (r : User × AuthDb). HasOne e r.1.push.users)
            (λ (r : User × AuthDb). HasOne e r.1.push.users)
            (claim_guest_upgrade u.id google_identity.email
              (upgrade_google_guest locale google_identity u.roles) db)
            _
            (claim_guest_upgrade-HasOne e u.id google_identity.email
              (upgrade_google_guest locale google_identity u.roles) db
              (λ u. unfold upgrade_google_guest in refl) (alone u.id) one)
            (λ claimed kept.
              unfold revoke_active_sessions_for_guest_upgrade in
              rw
                (revoked-users e (λ s. s.user_id == claimed.0.id) none (some claimed.0.id)
                  host.clock.revoked host.clock.retired claimed.1)
                kept)
  linked_user-HasOne host locale google_identity (some u) false session_id token db alone one =
      Returns-raise_if (λ (r : User × AuthDb). HasOne e r.1.push.users)
        (is_owned_by_other (find (has_email google_identity.email) db.push.users) u.id)
        google_account_link_required _
        λ unowned.
          Returns-raise_if (λ (r : User × AuthDb). HasOne e r.1.push.users) (not u.is_active)
            account_inactive _
            (λ active. rw (revoke_replaced-users host (some u) session_id token db) one)

  link_identity-HasOne :
      (host : Host) (settings : AuthSettings) (locale : String) (client_type : ClientType)
      (device_id : Option String) (google_identity : VerifiedGoogleIdentity) (current : Option User)
      (was_guest : Bool) (session_id : Option Uuid) (token : Option String) (db : AuthDb)
      → ((i : Uuid) → count_if (is_user i) db.push.users ≤ 1)
      → HasOne e db.push.users
      → Returns
          (λ r. HasOne e r.1.push.users)
          (link_identity host settings locale client_type device_id google_identity current
            was_guest session_id token db)
  unfolding link_identity insert_identity
  link_identity-HasOne host settings locale client_type device_id google_identity current was_guest
        session_id token db alone one =
      Returns-raise_if P (has_google current was_guest db) google_identity_already_linked _
        λ unlinked. Returns-on_integrity_error P google_identity_conflict _ (
          Returns-bind (λ (r : User × AuthDb). HasOne e r.1.push.users) P
            (linked_user host locale google_identity current was_guest session_id token db) _
            (linked_user-HasOne host locale google_identity current was_guest session_id token db
              alone one)
            (λ r kept.
              Returns-bind (λ (d : AuthDb). HasOne e d.push.users) P
                (insert_identity host google_identity r.0.id r.1) _
                (Returns-raise_if (λ (d : AuthDb). HasOne e d.push.users)
                  (any (has_subject google_identity.subject) r.1.identities
                    || any (is_google_of r.0.id) r.1.identities)
                  integrity_error _ (λ free. kept))
                (λ d still.
                  issue_session-HasOne e host settings r.0 client_type device_id full d still)))
    where
      P : IssuedCredentials × AuthDb → Type 0
      P r = HasOne e r.1.push.users

  -- The sign-in with Google, on each of its paths, keeps the email `e` with one user at most, where ids
  -- are unique.
  pub login_google_user-HasOne :
      (google : Google) (host : Host) (settings : AuthSettings) (id_token locale : String)
      (client_type : ClientType) (device_id : Option String) (current_user : Option User)
      (session_id : Option Uuid) (token : Option String) (db : AuthDb) {c : IssuedCredentials}
      {db' : AuthDb}
      → ((i : Uuid) → count_if (is_user i) db.push.users ≤ 1)
      → HasOne e db.push.users
      → login_google_user google host settings id_token locale client_type device_id current_user
          session_id token db
        ≡ ok (c, db')
      → HasOne e db'.push.users
  login_google_user-HasOne google host settings id_token locale client_type device_id current_user
        session_id token db alone one signed_in =
      Returns-elim P
        (login_google_user google host settings id_token locale client_type device_id current_user
          session_id token db)
        (unfold login_google_user in
          Returns-after P (verify_google_id_token google host.texts settings id_token) _
            λ google_identity. Returns-after P (reload_current_user current_user db) _ λ current.
              by_identity google_identity current
                (find (has_subject google_identity.subject) db.identities))
        signed_in
    where
      P : IssuedCredentials × AuthDb → Type 0
      P r = HasOne e r.1.push.users

      by_identity :
          (google_identity : VerifiedGoogleIdentity) (current : Option User)
          (identity : Option AuthIdentity)
          → Returns P (
              login_or_link host settings locale client_type device_id google_identity current
                (was_guest_of current_user)
                session_id
                token
                identity
                db)
      by_identity google_identity current none =
          unfold login_or_link in
          link_identity-HasOne host settings locale client_type device_id google_identity current
            (was_guest_of current_user) session_id token db alone one
      by_identity google_identity current (some identity) =
          unfold login_or_link in
          login_identity-HasOne host settings client_type device_id google_identity current
            session_id token identity db alone one
