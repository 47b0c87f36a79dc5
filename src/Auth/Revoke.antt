-- ===== src/Auth/Revoke.antt =====
-- app/services/auth.py: the end of sessions. Each end takes the devices bound to the session out of
-- service, in the same transaction.
use fofu_backend.Base.{
  ℕ, Uuid, Time, String, Bool, true, false, not, ◌&&◌, ◌||◌, Option, none, some, ◌==◌, is_none,
  find, count_if, update_where, if◌then◌else◌, Result, ok, err,
}
use fofu_backend.Push.Rows.{AuthSession}
use fofu_backend.Push.Cancel.{deactivate_session_devices}
use fofu_backend.Auth.Rows.{
  AuthDb, AuthServiceError, authentication_required, Host, Crypto, has_hash, nonempty, set_sessions,
}

abbrev pub revoke : Time → AuthSession → AuthSession
revoke now s = record s { revoked_at = some now }

-- `update(AuthSession).where(condition, revoked_at IS NULL).values(revoked_at=now)`
unfoldable pub revoke_where : (AuthSession → Bool) → Time → AuthDb → AuthDb
revoke_where p now db =
    set_sessions (update_where (λ s. p s && is_none s.revoked_at) (revoke now) db.push.sessions) db

-- The call of app/services/push.py, with its default reason.
unfoldable pub deactivate_devices_of : Option Uuid → Option Uuid → Time → AuthDb → AuthDb × ℕ
deactivate_devices_of session_id user_id now db =
    let (push, n) = deactivate_session_devices session_id user_id "session_revoked" now db.push in
    (record db { push = push }, n)

unfoldable pub revoke_active_sessions_for_guest_upgrade : Host → Uuid → AuthDb → AuthDb
unfolding revoke_where deactivate_devices_of
revoke_active_sessions_for_guest_upgrade host user_id db =
    (deactivate_devices_of none (some user_id) host.clock.retired
      (revoke_where (λ s. s.user_id == user_id) host.clock.revoked db)).0

unfoldable pub revoke_replaced_session : Host → Uuid → Option Uuid → AuthDb → AuthDb
unfolding revoke_where deactivate_devices_of
revoke_replaced_session host user_id none db = db
revoke_replaced_session host user_id (some session_id) db =
    (deactivate_devices_of (some session_id) none host.clock.retired
      (revoke_where (λ s. s.id == session_id && s.user_id == user_id) host.clock.revoked db)).0

-- The conditions of the two statements of `_revoke_replaced_refresh_session`.
abbrev pub is_replaced : Crypto → Uuid → String → AuthSession → Bool
is_replaced crypto user_id token s = s.user_id == user_id && has_hash (crypto.digest token) s

abbrev pub session_id_of : Option AuthSession → Option Uuid
session_id_of none = none
session_id_of (some s) = some s.id

unfoldable pub revoke_refresh_token : Host → Uuid → Option String → AuthDb → AuthDb
unfolding revoke_where deactivate_devices_of
revoke_refresh_token host user_id none db = db
revoke_refresh_token host user_id (some token) db =
    let replaced =
      find (λ s. is_replaced host.crypto user_id token s && is_none s.revoked_at)
        db.push.sessions in
    (deactivate_devices_of (session_id_of replaced) none host.clock.retired_again
      (revoke_where (is_replaced host.crypto user_id token) host.clock.revoked_again db)).0

-- `_revoke_replaced_refresh_session`: an empty token is none.
unfoldable pub revoke_replaced_refresh_session : Host → Uuid → Option String → AuthDb → AuthDb
unfolding revoke_refresh_token
revoke_replaced_refresh_session host user_id token db =
    revoke_refresh_token host user_id (nonempty token) db

-- The session that `revoke_sessions` is asked for.
unfoldable pub revocation_target :
    Crypto → Option Uuid → Option String → AuthDb → Option AuthSession
revocation_target crypto session_id (some token) db =
    find (has_hash (crypto.digest token)) db.push.sessions
revocation_target crypto (some i) none db = find (λ (s : AuthSession). s.id == i) db.push.sessions
revocation_target crypto none none db = none

-- `all_sessions`
unfoldable pub revoke_all : Host → Option Uuid → AuthDb → Result AuthServiceError (Bool × AuthDb)
unfolding revoke_where deactivate_devices_of
revoke_all host none db = err authentication_required
revoke_all host (some user_id) db =
    let changed =
      count_if (λ (s : AuthSession). s.user_id == user_id && is_none s.revoked_at)
        db.push.sessions in
    let (db', n) =
      deactivate_devices_of none (some user_id) host.clock.retired
        (revoke_where (λ s. s.user_id == user_id) host.clock.revoked db) in
    ok (not (changed == 0) || not (n == 0), db')

-- `user_id is not None and target.user_id != user_id`
abbrev pub is_foreign : Option Uuid → AuthSession → Bool
is_foreign none s = false
is_foreign (some user_id) s = not (s.user_id == user_id)

unfoldable pub revoke_target :
    Host → Option Uuid → Option AuthSession → AuthDb → Result AuthServiceError (Bool × AuthDb)
unfolding revoke_where deactivate_devices_of
revoke_target host user_id none db = ok (false, db)
revoke_target host user_id (some target) db =
    if is_foreign user_id target
    then ok (false, db)
    else ok (
      true,
      (deactivate_devices_of (some target.id) none host.clock.retired
          (revoke_where (λ s. s.id == target.id) host.clock.revoked db)).0,
    )

unfoldable pub revoke_sessions :
    Host
    → Option Uuid
    → Option Uuid
    → Option String
    → Bool
    → AuthDb
    → Result AuthServiceError (Bool × AuthDb)
unfolding revocation_target revoke_all revoke_target
revoke_sessions host user_id session_id token all_sessions db =
    if all_sessions
    then revoke_all host user_id db
    else revoke_target host user_id (revocation_target host.crypto session_id (nonempty token) db)
        db
