-- ===== src/Auth/Upgrade.antt =====
-- The upgrade of a guest in app/services/auth.py: what was issued to the guest does not outlive it.
use fofu_backend.Base.{
  Uuid, Time, ◌≡◌, refl, String, false, not, ◌&&◌, Option, none, some, arith, ◌==◌, ==_iff,
  find-passes, any, count_if, update_where, All, All-map, All-append, Result, ok, err, Returns,
  Returns-or_raise, Returns-raise_if, Returns-bind, Returns-elim,
}
use fofu_backend.Push.Rows.{User, ClientType, Scope, full}
use fofu_backend.Push.Cancel.{is_bound}
use fofu_backend.Auth.Rows.{
  AuthDb, AuthSettings, AuthServiceError, Host, set_users, has_hash, has_email, already_registered,
  email_already_registered, guest_upgrade_conflict, integrity_error,
}
use fofu_backend.Auth.Tokens.{AccessClaims}
use fofu_backend.Auth.Revoke.{revoke_active_sessions_for_guest_upgrade}
use fofu_backend.Auth.Issue.{
  IssuedCredentials, issue_session, new_session, user_by_id, normal_email,
}
use fofu_backend.Auth.Register.{
  Registration, upgrade_guest, claim_guest_upgrade, registered_user, register_user,
  on_integrity_error, is_email_of_other, is_claimable,
}
use fofu_backend.Auth.Principal.{invalid_session, is_ended, principal_of}
use fofu_backend.Auth.Access.{IsOver, IsSignedOut, revoked-IsSignedOut, principal_of-refused}

-- The user's sessions but the new one are over, and no active device is bound to the user.
abbrev pub IsUpgraded : Host → Uuid → AuthDb → Type 0
IsUpgraded host user_id =
    IsSignedOut (λ s. s.user_id == user_id && not (s.id == host.entropy.session_id)) none
      (some user_id)

pub Returns-on_integrity_error {ℓ κ} :
    {A : Type ℓ} (P : A → Type κ) (e : AuthServiceError) (m : Result AuthServiceError A)
    → Returns P m
    → Returns P (on_integrity_error e m)
unfolding on_integrity_error
Returns-on_integrity_error P e (ok a) h = h
Returns-on_integrity_error P e (err x) h = tt

-- The user that is claimed is the one asked for.
pub claim_guest_upgrade-id :
    (user_id : Uuid) (email : String) (upgrade : User → User) (db : AuthDb)
    → Returns (λ r. r.0.id ≡ user_id) (claim_guest_upgrade user_id email upgrade db)
unfolding claim_guest_upgrade
claim_guest_upgrade-id user_id email upgrade db =
    Returns-raise_if P (not (count_if (is_claimable user_id) db.push.users == 1))
      guest_upgrade_conflict _
      λ claimable.
        Returns-raise_if P (any (is_email_of_other email user_id) db.push.users) integrity_error _
          λ free.
            Returns-or_raise P
              (user_by_id user_id
                (set_users (update_where (is_claimable user_id) upgrade db.push.users) db))
              guest_upgrade_conflict _
              λ user found. (==_iff user.id user_id).0 (
                unfold user_by_id in
                find-passes (λ (u : User). u.id == user_id)
                  (update_where (is_claimable user_id) upgrade db.push.users) found)
  where
    P : User × AuthDb → Type 0
    P r = r.0.id ≡ user_id

pub issue_session-IsUpgraded :
    (host : Host) (settings : AuthSettings) (user : User) (client_type : ClientType)
    (device_id : Option String) (scope : Scope) (user_id : Uuid) (db : AuthDb)
    → IsSignedOut (λ s. s.user_id == user_id) none (some user_id) db
    → Returns
        (λ r. IsUpgraded host user_id r.1)
        (issue_session host settings user client_type device_id scope none none none db)
unfolding issue_session
issue_session-IsUpgraded host settings user client_type device_id scope user_id db out =
    Returns-raise_if (λ (r : IssuedCredentials × AuthDb). IsUpgraded host user_id r.1)
      (any (has_hash (host.crypto.digest host.entropy.refresh_token)) db.push.sessions)
      integrity_error _
      λ free. (
        (All-append _ db.push.sessions _
            (All-map _ _ _ (λ s over hit. ground (arith, over, hit)) out.0)
            (unfold new_session in (λ e. absurd (ground arith), tt))),
        out.1,
      )

registered_user-IsSignedOut :
    (host : Host) (form : Registration) (guest_user : User) (db : AuthDb)
    → Returns
        (λ r. IsSignedOut (λ s. s.user_id == guest_user.id) none (some guest_user.id) r.1)
        (registered_user host form (some guest_user) db)
unfolding registered_user
registered_user-IsSignedOut host form guest_user db =
    let upgrade = upgrade_guest host form guest_user.roles in
    Returns-raise_if P (not guest_user.is_guest) already_registered _ λ is_one.
      (Returns-bind (λ (r : User × AuthDb). r.0.id ≡ guest_user.id) P
        (claim_guest_upgrade guest_user.id form.email upgrade db) _
        (claim_guest_upgrade-id guest_user.id form.email upgrade db)
        (λ claimed same.
          unfold revoke_active_sessions_for_guest_upgrade in
          rw same (
            revoked-IsSignedOut (λ s. s.user_id == guest_user.id) none (some guest_user.id)
              host.clock.revoked host.clock.retired claimed.1 refl)))
  where
    P : User × AuthDb → Type 0
    P r = IsSignedOut (λ s. s.user_id == guest_user.id) none (some guest_user.id) r.1

-- Of an upgraded user, every access token but that of the new session is refused.
IsUpgraded-refused :
    (host : Host) (user_id : Uuid) (db : AuthDb) (now : Time) (claims : AccessClaims)
    → claims.user_id ≡ user_id
    → (claims.session_id == host.entropy.session_id) ≡ false
    → IsUpgraded host user_id db
    → principal_of now claims db ≡ err invalid_session
IsUpgraded-refused host user_id db now claims named earlier out =
    principal_of-refused now claims db (
      All-map (IsOver (λ s. s.user_id == user_id && not (s.id == host.entropy.session_id))) _
        db.push.sessions
        (λ s over same. unfold is_ended in rw named (ground (arith, over, same, earlier))) out.0)

-- A guest registers. Afterwards every access token of the user but that of the new session is refused,
-- whenever it was issued, and no active device is bound to the user.
pub register_user-upgraded :
    (host : Host) (settings : AuthSettings) (form : Registration) (client_type : ClientType)
    (device_id : Option String) (guest_user : User) (seen db : AuthDb) (now : Time)
    (claims : AccessClaims) {c : IssuedCredentials} {db' : AuthDb}
    → claims.user_id ≡ guest_user.id
    → (claims.session_id == host.entropy.session_id) ≡ false
    → register_user host settings form client_type device_id (some guest_user) seen db ≡ ok (c, db')
    → (principal_of now claims db' ≡ err invalid_session)
      × All (λ d. is_bound none (some guest_user.id) d ≡ false) db'.push.devices
register_user-upgraded host settings form client_type device_id guest_user seen db now claims {c}
      {db'} named earlier answered =
    let normalized = record form { email = normal_email host.texts form.email } in
    let out =
      Returns-elim P
        (register_user host settings form client_type device_id (some guest_user) seen db)
        (unfold register_user in
          Returns-raise_if P (any (has_email normalized.email) seen.push.users)
            email_already_registered _
            λ unseen.
              (Returns-on_integrity_error P email_already_registered _ (
                Returns-bind Q P (registered_user host normalized (some guest_user) db) _
                  (registered_user-IsSignedOut host normalized guest_user db)
                  (λ r out.
                    issue_session-IsUpgraded host settings r.0 client_type device_id full
                      guest_user.id r.1 out))))
        answered in
    (IsUpgraded-refused host guest_user.id db' now claims named earlier out, out.1)
  where
    P : IssuedCredentials × AuthDb → Type 0
    P r = IsUpgraded host guest_user.id r.1

    Q : User × AuthDb → Type 0
    Q r = IsSignedOut (λ s. s.user_id == guest_user.id) none (some guest_user.id) r.1
