-- ===== src/Auth/Separation.antt =====
-- Administrators and the web client in app/api/auth.py.
use fofu_backend.Base.{
  Uuid, Time, ◌≡◌, refl, sym, ap, ◌∙◌, String, true, false, not, Option, none, some, str_eq, ◌==◌,
  ==_refl, find, find-appended, find-any, find-update_where, eq_iff, ◌&&◌, is_none, Option-cases,
  inl, inr, any, if-split, ok, err, Returns, Returns-or_raise, Returns-raise_if, Returns-elim,
}
use fofu_backend.Push.Rows.{AuthSession, User, ClientType, web, Scope, full}
use fofu_backend.Auth.Rows.{
  AuthDb, AuthSettings, Host, has_hash, has_email, Crypto, Entropy, Clock, invalid_refresh_token,
  integrity_error, invalid_credentials,
}
use fofu_backend.Auth.Tokens.{AccessClaims}
use fofu_backend.Auth.Revoke.{
  revoke, revoke_where, deactivate_devices_of, revoke_target, revoke_sessions, revocation_target,
}
use fofu_backend.Auth.Issue.{
  IssuedCredentials, Issued, new_session, sign, issue_session, may_log_in, normal_email, login_user,
  user_by_id, rotate_refresh_token,
}
use fofu_backend.Auth.Principal.{invalid_session, session_by_id, principal_of}
use fofu_backend.Auth.Access.{deactivate-sessions, revoke_sessions-ends}
use fofu_backend.Auth.Handlers.{
  AuthResponse, Handled, admin_login_separated, is_admin, is_web, is_admin_on, auth_response,
  user_summary, respond, refused, revoke_issued, handle_issued, login, CookieAction, keep_cookie,
}

-- The credentials are those of a live session that stands in the tables, under the id `i`, and is found by
-- the digest of their refresh token.
abbrev IsStored : Crypto → Uuid → IssuedCredentials × AuthDb → Type 0
IsStored crypto i r =
    (r.0.session.id ≡ i)
    × (session_by_id i r.1 ≡ some r.0.session)
    × (r.0.session.user_id ≡ r.0.user.id)
    × (r.0.session.revoked_at ≡ none)
    × (find (has_hash (crypto.digest r.0.refresh_token)) r.1.push.sessions ≡ some r.0.session)

issue_session-IsStored :
    (host : Host) (settings : AuthSettings) (user : User) (client_type : ClientType)
    (device_id : Option String) (scope : Scope) (db : AuthDb)
    → session_by_id host.entropy.session_id db ≡ none
    → Returns
        (IsStored host.crypto host.entropy.session_id)
        (issue_session host settings user client_type device_id scope none none none db)
unfolding issue_session new_session sign
issue_session-IsStored host settings user client_type device_id scope db unused =
    Returns-raise_if (IsStored host.crypto host.entropy.session_id)
      (any (has_hash (host.crypto.digest host.entropy.refresh_token)) db.push.sessions)
      integrity_error _
      λ free. (
        refl,
        unfold session_by_id in
            find-appended (λ (t : AuthSession). t.id == host.entropy.session_id) db.push.sessions
              (new_session host settings user client_type device_id scope none none) unused
              (==_refl host.entropy.session_id),
        refl,
        refl,
        find-appended (has_hash (host.crypto.digest host.entropy.refresh_token)) db.push.sessions
            (new_session host settings user client_type device_id scope none none)
            (find-any (has_hash (host.crypto.digest host.entropy.refresh_token)) db.push.sessions
              free)
            ((eq_iff _ _).1 refl),
      )

login_user-IsStored :
    (host : Host) (settings : AuthSettings) (email password : String) (client_type : ClientType)
    (device_id : Option String) (db : AuthDb)
    → session_by_id host.entropy.session_id db ≡ none
    → Returns
        (IsStored host.crypto host.entropy.session_id)
        (login_user host settings email password client_type device_id full db)
unfolding login_user
login_user-IsStored host settings email password client_type device_id db unused =
    let found = find (has_email (normal_email host.texts email)) db.push.users in
    Returns-raise_if (IsStored host.crypto host.entropy.session_id)
      (not (may_log_in host.crypto password found)) invalid_credentials _
      λ allowed.
        Returns-or_raise (IsStored host.crypto host.entropy.session_id) found invalid_credentials _
          λ user known.
            issue_session-IsStored host settings user client_type device_id full db unused

-- A refresh token of a revoked session is refused, whether or not the user is still there.
rotate_refresh_token-revoked :
    (host : Host) (settings : AuthSettings) (token : String) (db : AuthDb) (s : AuthSession)
    (revoked : Time)
    → find (has_hash (host.crypto.digest token)) db.push.sessions ≡ some (revoke revoked s)
    → rotate_refresh_token host settings token db ≡ err invalid_refresh_token
unfolding rotate_refresh_token
rotate_refresh_token-revoked host settings token db s revoked found =
    elim (Option-cases (user_by_id s.user_id db)) [
      | inl missing ↦ rw (found, missing) refl
      | inr (user, known) ↦ rw (found, known) refl
    ]

module _ (host : Host) (c : IssuedCredentials) (db : AuthDb) (i : Uuid)
    (stored : IsStored host.crypto i (c, db)) where
  -- What `revoke_sessions` is asked for is the session of the credentials.
  held : revocation_target host.crypto (some c.session.id) none db ≡ some c.session
  held =
      unfold revocation_target session_by_id in
      (ap (λ j. find (λ (s : AuthSession). s.id == j) db.push.sessions) stored.0 ∙ stored.1)

  revokes :
      revoke_sessions host (some c.user.id) (some c.session.id) none false db
      ≡ ok (
        true,
        (deactivate_devices_of
            (some c.session.id)
            none
            host.clock.retired
            (revoke_where (λ s. s.id == c.session.id) host.clock.revoked db)).0,
      )
  revokes = unfold revoke_sessions revoke_target in rw (held, stored.2, ==_refl c.user.id) refl

  -- Its access tokens and its refresh token are refused.
  revoke_issued-refused :
      (now : Time) (claims : AccessClaims)
      → claims.session_id ≡ i
      → principal_of now claims (revoke_issued host c db) ≡ err invalid_session
  unfolding revoke_issued
  revoke_issued-refused now claims named =
      rw revokes
        (revoke_sessions-ends host (some c.user.id) (some c.session.id) none db now claims
          {target = c.session} held (named ∙ sym stored.0) revokes).0

  revoke_issued-unusable :
      (settings : AuthSettings) (later : Entropy) (clock : Clock)
      → rotate_refresh_token
          (record host { entropy = later; clock = clock })
          settings
          c.refresh_token
          (revoke_issued host c db)
        ≡ err invalid_refresh_token
  unfolding revoke_issued
  revoke_issued-unusable settings later clock = rw revokes (
      rotate_refresh_token-revoked (record host { entropy = later; clock = clock }) settings
        c.refresh_token _ c.session host.clock.revoked
        (rw
          (deactivate-sessions (some c.session.id) none host.clock.retired
            (revoke_where (λ s. s.id == c.session.id) host.clock.revoked db))
          (unfold revoke_where in
            (find-update_where (has_hash (host.crypto.digest c.refresh_token))
                (λ s. s.id == c.session.id && is_none s.revoked_at) (revoke host.clock.revoked)
                db.push.sessions (λ s. refl)
              ∙ rw (stored.4, stored.3, ==_refl c.session.id) refl))))

-- An administrator who logs in by the web client is refused, and nothing that the login has issued is
-- good: every access token of the session that it opened is refused, whenever it is shown, and so is its
-- refresh token. The session's id is taken to be new.
pub login-separated :
    (host : Host) (settings : AuthSettings) (email password : String) (device_id : Option String)
    (now shown : Time) (db : AuthDb) (claims : AccessClaims) (later : Entropy) (clock : Clock)
    {c : IssuedCredentials} {db' : AuthDb}
    → session_by_id host.entropy.session_id db ≡ none
    → login_user host settings email password web device_id full db ≡ ok (c, db')
    → any (λ r. str_eq r "admin") c.user.roles ≡ true
    → claims.session_id ≡ host.entropy.session_id
    → let handled = login host settings email password web device_id now db in
      (handled.reply ≡ err admin_login_separated)
      × (principal_of shown claims handled.tables ≡ err invalid_session)
      × (rotate_refresh_token
            (record host { entropy = later; clock = clock })
            settings
            c.refresh_token
            handled.tables
          ≡ err invalid_refresh_token)
unfolding login handle_issued refused
login-separated host settings email password device_id now shown db claims later clock {c} {db'}
      unused logged_in an_admin named =
    let stored =
      Returns-elim (IsStored host.crypto host.entropy.session_id)
        (login_user host settings email password web device_id full db)
        (login_user-IsStored host settings email password web device_id db unused) logged_in in
    rw (logged_in, an_admin)
      (
        refl,
        revoke_issued-refused host c db' host.entropy.session_id stored shown claims named,
        revoke_issued-unusable host c db' host.entropy.session_id stored settings later clock,
      )

login_user-client_type :
    (host : Host) (settings : AuthSettings) (email password : String) (client_type : ClientType)
    (device_id : Option String) (db : AuthDb)
    → Returns
        (λ r. r.0.session.client_type ≡ client_type)
        (login_user host settings email password client_type device_id full db)
unfolding login_user issue_session new_session sign
login_user-client_type host settings email password client_type device_id db =
    let found = find (has_email (normal_email host.texts email)) db.push.users in
    Returns-raise_if P (not (may_log_in host.crypto password found)) invalid_credentials _
      λ allowed. Returns-or_raise P found invalid_credentials _ λ user known.
        Returns-raise_if P
          (any (has_hash (host.crypto.digest host.entropy.refresh_token)) db.push.sessions)
          integrity_error _ (λ free. refl)
  where
    P : IssuedCredentials × AuthDb → Type 0
    P r = r.0.session.client_type ≡ client_type

-- No administrator's, and without a refresh token.
abbrev pub IsForWeb : AuthResponse → Type 0
IsForWeb body = (any (λ r. str_eq r "admin") body.user.roles ≡ false) × (body.refresh_token ≡ none)

handle_issued-IsForWeb :
    (host : Host) (cookie : CookieAction) (now : Time) (m : Issued) (db : AuthDb)
    {body : AuthResponse}
    → Returns (λ r. r.0.session.client_type ≡ web) m
    → (handle_issued host (is_admin_on web) cookie now m db).reply ≡ ok body
    → IsForWeb body
unfolding handle_issued refused respond
handle_issued-IsForWeb host cookie now (err e) db on_web answered = absurd (cc answered)
handle_issued-IsForWeb host cookie now (ok (c, db')) db {body} on_web answered =
    if-split (λ (h : Handled AuthResponse). h.reply ≡ ok body → IsForWeb body) (is_admin c.user)
      (λ _ e. absurd (cc e))
      (λ plain e.
        Returns-elim IsForWeb (ok (auth_response c (not (is_web c.session.client_type))))
          (unfold auth_response user_summary in (plain, rw on_web refl)) e)
      answered

-- A login by the web client that is answered with credentials is no administrator's, and gives the refresh
-- token in a cookie only, not in the body.
pub login-IsForWeb :
    (host : Host) (settings : AuthSettings) (email password : String) (device_id : Option String)
    (now : Time) (db : AuthDb) {body : AuthResponse}
    → (login host settings email password web device_id now db).reply ≡ ok body
    → IsForWeb body
unfolding login
login-IsForWeb host settings email password device_id now db {body} answered =
    handle_issued-IsForWeb host keep_cookie now
      (login_user host settings email password web device_id full db) db
      (login_user-client_type host settings email password web device_id db) answered
