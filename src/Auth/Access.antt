-- ===== src/Auth/Access.antt =====
-- What the end of a session in app/services/auth.py means for app/dependencies.py and
-- app/services/push.py: its tokens are refused, and its devices are out of service.
use fofu_backend.Base.{
  if-split, Uuid, Time, ◌≡◌, refl, inl, inr, String, Bool, true, false, ◌&&◌, Option, none, some,
  arith, ◌==◌, find-passes, is_some, is_none, All, All-map, All-find, All-after_update,
  Option-cases, ok, err, Returns, Returns-elim,
}
use fofu_backend.Push.Rows.{AuthSession}
use fofu_backend.Push.Cancel.{is_bound, deactivate_session_devices}
use fofu_backend.Push.Retire.{deactivate_complete}
use fofu_backend.Auth.Rows.{AuthDb, Host, nonempty}
use fofu_backend.Auth.Tokens.{AccessClaims}
use fofu_backend.Auth.Revoke.{
  revoke_where, deactivate_devices_of, revoke_target, revoke_all, revoke_sessions, is_foreign,
  revocation_target,
}
use fofu_backend.Auth.Principal.{invalid_session, is_ended, session_by_id, principal_of}

-- A session of the user is revoked.
abbrev pub IsOver : (AuthSession → Bool) → AuthSession → Type 0
IsOver p s = p s ≡ true → is_some s.revoked_at ≡ true

-- Where each session that a token may name is over, the token is refused.
pub principal_of-refused :
    (now : Time) (claims : AccessClaims) (db : AuthDb)
    → All
        (λ (s : AuthSession). (s.id == claims.session_id) ≡ true → is_ended now claims s ≡ true)
        db.push.sessions
    → principal_of now claims db ≡ err invalid_session
unfolding principal_of
principal_of-refused now claims db over = elim (Option-cases (session_by_id claims.session_id db)) [
  | inl missing ↦ rw missing refl
  | inr (s, found) ↦ rw (found, ended s found) refl
]
  where
    ended :
        (s : AuthSession)
        → session_by_id claims.session_id db ≡ some s
        → is_ended now claims s ≡ true
    ended s found =
        unfold session_by_id in
        All-find _ (λ (s : AuthSession). s.id == claims.session_id) db.push.sessions over found
          (find-passes (λ (s : AuthSession). s.id == claims.session_id) db.push.sessions found)

-- Revoking sessions and retiring what is bound to them.
revoke_where-IsOver :
    (p : AuthSession → Bool) (now : Time) (db : AuthDb)
    → All (IsOver p) (revoke_where p now db).push.sessions
unfolding revoke_where
revoke_where-IsOver p now db =
    All-after_update (IsOver p) (λ s. p s && is_none s.revoked_at) _ db.push.sessions
      (λ s hit over. refl) (λ s miss over. ground (arith, miss, over))

pub deactivate-sessions :
    (session_id user_id : Option Uuid) (now : Time) (db : AuthDb)
    → (deactivate_devices_of session_id user_id now db).0.push.sessions ≡ db.push.sessions
unfolding deactivate_devices_of deactivate_session_devices
deactivate-sessions session_id user_id now db = ground arith

-- The sessions that pass a test are over, and no active device is bound.
abbrev pub IsSignedOut : (AuthSession → Bool) → Option Uuid → Option Uuid → AuthDb → Type 0
IsSignedOut p session_id user_id db =
    All (IsOver p) db.push.sessions
    × All (λ d. is_bound session_id user_id d ≡ false) db.push.devices

pub revoked-IsSignedOut :
    (p : AuthSession → Bool) (session_id user_id : Option Uuid) (revoked retired : Time)
    (db : AuthDb)
    → (is_none session_id && is_none user_id) ≡ false
    → IsSignedOut p session_id user_id
        (deactivate_devices_of session_id user_id retired (revoke_where p revoked db)).0
revoked-IsSignedOut p session_id user_id revoked retired db given = (
  rw (deactivate-sessions session_id user_id retired (revoke_where p revoked db))
      (revoke_where-IsOver p revoked db),
  unfold deactivate_devices_of in
      (deactivate_complete session_id user_id "session_revoked" retired
        (revoke_where p revoked db).push given).1,
)

-- Tokens of a user whose sessions are over are refused, and tokens of a session that is over.
pub user_ended :
    (now : Time) (claims : AccessClaims) (user_id : Uuid) (s : AuthSession)
    → claims.user_id ≡ user_id
    → IsOver (λ s. s.user_id == user_id) s
    → is_ended now claims s ≡ true
unfolding is_ended
user_ended now claims user_id s same over = rw same (ground (arith, over))

-- `revoke_sessions` for one session, found by its id or its refresh token, that answers yes: afterwards
-- every access token of the session is refused, and no active device is bound to it.
pub revoke_sessions-ends :
    (host : Host) (user_id session_id : Option Uuid) (token : Option String) (db : AuthDb)
    (now : Time) (claims : AccessClaims) {target : AuthSession} {db' : AuthDb}
    → revocation_target host.crypto session_id (nonempty token) db ≡ some target
    → claims.session_id ≡ target.id
    → revoke_sessions host user_id session_id token false db ≡ ok (true, db')
    → (principal_of now claims db' ≡ err invalid_session)
      × All (λ d. is_bound (some target.id) none d ≡ false) db'.push.devices
revoke_sessions-ends host user_id session_id token db now claims {target} {db'} found named
      answered =
    Returns-elim P (revoke_sessions host user_id session_id token false db)
      (unfold revoke_sessions revoke_target in
        rw found (
          if-split (Returns P) (is_foreign user_id target) (λ _ no. absurd (ground arith))
            (λ _ yes.
              let out =
                revoked-IsSignedOut (λ s. s.id == target.id) (some target.id) none
                  host.clock.revoked host.clock.retired db refl in
              (
                principal_of-refused now claims _ (
                    All-map _ _ _ (λ s over same. unfold is_ended in ground (arith, over, named))
                      out.0),
                out.1,
              ))))
      answered refl
  where
    P : Bool × AuthDb → Type 0
    P r =
        r.0 ≡ true
        → (principal_of now claims r.1 ≡ err invalid_session)
          × All (λ d. is_bound (some target.id) none d ≡ false) r.1.push.devices

-- `revoke_sessions` for all sessions of a user: afterwards every access token of the user is refused, and
-- no active device is bound to the user.
pub revoke_sessions_everywhere :
    (host : Host) (user_id : Uuid) (session_id : Option Uuid) (token : Option String) (db : AuthDb)
    (now : Time) (claims : AccessClaims) {changed : Bool} {db' : AuthDb}
    → claims.user_id ≡ user_id
    → revoke_sessions host (some user_id) session_id token true db ≡ ok (changed, db')
    → (principal_of now claims db' ≡ err invalid_session)
      × All (λ d. is_bound none (some user_id) d ≡ false) db'.push.devices
revoke_sessions_everywhere host user_id session_id token db now claims {changed} {db'} named
      answered =
    Returns-elim P (revoke_sessions host (some user_id) session_id token true db)
      (unfold revoke_sessions revoke_all in
        let out =
          revoked-IsSignedOut (λ s. s.user_id == user_id) none (some user_id) host.clock.revoked
            host.clock.retired db refl in
        (
          principal_of-refused now claims _
              (All-map _ _ _ (λ s over same. user_ended now claims user_id s named over) out.0),
          out.1,
        ))
      answered
  where
    P : Bool × AuthDb → Type 0
    P r =
        (principal_of now claims r.1 ≡ err invalid_session)
        × All (λ d. is_bound none (some user_id) d ≡ false) r.1.push.devices
