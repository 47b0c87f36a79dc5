-- ===== src/Auth/Entry.antt =====
-- Being let in: the round trip of an access token through app/security.py and app/dependencies.py.
use fofu_backend.Base.{
  ℕ, Uuid, Time, ◌≡◌, ◌≤◌, ◌<◌, ◌*◌, ◌/◌, refl, String, Bool, true, false, Option, none, some, [],
  ◌∷◌, ◌++◌, arith, ◌==◌, ==_refl, any, str_eq, find-appended, ok, Returns-raise_if, Returns-elim,
}
use fofu_backend.Push.Rows.{AuthSession, User, ClientType, Scope, second}
use fofu_backend.Auth.Rows.{
  AuthDb, AuthSettings, integrity_error, Host, same_uuid, same_flag, set_sessions, Payload,
  has_hash,
}
use fofu_backend.Auth.Tokens.{AccessClaims, access_payload, decode_access_token, claims_of}
use fofu_backend.Auth.Issue.{IssuedCredentials, issue_session, new_session, user_by_id}
use fofu_backend.Auth.Principal.{
  AuthorizationCredentials, principal_of, get_optional_principal, session_by_id, is_ended,
  is_rescoped, is_invalid_user, same_scope,
}

-- A token keeps times in whole seconds.
abbrev pub whole_seconds : Payload → Payload
whole_seconds p = record p {
  iat = p.iat / second * second;
  nbf = p.nbf / second * second;
  exp = p.exp / second * second;
}

-- The payload of the session that `issue_session` makes.
abbrev pub issued_payload : Host → AuthSettings → User → Scope → Option Uuid → Option ℕ → Payload
issued_payload host settings user scope qr_restaurant_id minutes =
    access_payload host settings user.id host.entropy.session_id user.roles user.is_guest scope
      qr_restaurant_id minutes

abbrev pub bearer : String → AuthorizationCredentials
bearer token = record { scheme = "Bearer"; token = token }

same_scope_refl : (s : Scope) → same_scope s s ≡ true
same_scope_refl s = ground arith

same_uuid_refl : (o : Option Uuid) → same_uuid o o ≡ true
same_uuid_refl o = ground arith

same_flag_refl : (b : Bool) → same_flag b b ≡ true
same_flag_refl b = ground arith

-- A live session with the claims' columns, of an active user with the claims' flag, is let in.
let_in :
    (now : Time) (db : AuthDb) (s : AuthSession) (user : User) (claims : AccessClaims)
    → session_by_id claims.session_id db ≡ some s
    → user_by_id claims.user_id db ≡ some user
    → is_ended now claims s ≡ false
    → is_rescoped claims s ≡ false
    → same_flag s.is_guest_at_issue claims.is_guest ≡ true
    → is_invalid_user claims user ≡ false
    → principal_of now claims db ≡ ok (record { user = user; session = s; claims = claims })
unfolding principal_of
let_in now db s user claims found known open_yet scoped flagged valid =
    rw (found, open_yet, scoped, flagged, known, valid) refl

-- The access token that a new session gives lets its bearer in, as the user and with the session that the
-- token was issued for, while the token and the session last. The token's library is taken to decode a
-- token that it has encoded, with its times in whole seconds, while these last.
pub issue_session-principal :
    (host : Host) (settings : AuthSettings) (user : User) (client_type : ClientType)
    (device_id : Option String) (scope : Scope) (qr_restaurant_id : Option Uuid)
    (minutes : Option ℕ) (lifetime : Option Time) (db : AuthDb) (decoded now : Time)
    {c : IssuedCredentials} {db' : AuthDb}
    → let p = issued_payload host settings user scope qr_restaurant_id minutes in
      ((p.nbf / second * second ≤ decoded)
        → (decoded < p.exp / second * second)
        → host.crypto.decode settings.jwt_secret settings.jwt_algorithm settings.jwt_issuer
            settings.jwt_audience decoded
            (host.crypto.encode settings.jwt_secret settings.jwt_algorithm p)
          ≡ some (whole_seconds p))
      → str_eq (host.texts.casefold "Bearer") "bearer" ≡ true
      → user_by_id user.id db ≡ some user
      → user.is_active ≡ true
      → session_by_id host.entropy.session_id db ≡ none
      → p.nbf / second * second ≤ decoded
      → decoded < p.exp / second * second
      → now < c.session.expires_at
      → issue_session host settings user client_type device_id scope qr_restaurant_id minutes
          lifetime db
        ≡ ok (c, db')
      → get_optional_principal host settings decoded now (some (bearer c.access_token)) db'
        ≡ ok (
            some
              (record { user = user; session = c.session; claims = claims_of (whole_seconds p) }))
issue_session-principal host settings user client_type device_id scope qr_restaurant_id minutes
      lifetime db decoded now {c} {db'} decodes folds known active unused valid_yet valid_still
      lasting issued =
    Returns-elim P
      (issue_session host settings user client_type device_id scope qr_restaurant_id minutes
        lifetime db)
      (unfold issue_session in
        Returns-raise_if P
          (any (has_hash (host.crypto.digest host.entropy.refresh_token)) db.push.sessions)
          integrity_error _
          λ free lasts.
            let p = issued_payload host settings user scope qr_restaurant_id minutes in
            let s =
              new_session host settings user client_type device_id scope qr_restaurant_id
                lifetime in
            unfold get_optional_principal decode_access_token in
            rw
              (
                folds,
                decodes valid_yet valid_still,
                let_in now (set_sessions (db.push.sessions ++ s ∷ []) db) s user
                    (claims_of (whole_seconds p))
                    (unfold session_by_id claims_of in
                      find-appended (λ (t : AuthSession). t.id == host.entropy.session_id)
                        db.push.sessions s unused (==_refl host.entropy.session_id))
                    (unfold user_by_id claims_of in known)
                    (unfold is_ended claims_of in ground (arith, lasts))
                    (unfold is_rescoped claims_of in
                      rw (same_scope_refl scope, same_uuid_refl qr_restaurant_id) refl)
                    (unfold claims_of in same_flag_refl user.is_guest)
                    (unfold is_invalid_user claims_of in
                      rw (active, same_flag_refl user.is_guest) refl),
              )
              refl)
      issued lasting
  where
    P : IssuedCredentials × AuthDb → Type 0
    P r =
        now < r.0.session.expires_at
        → get_optional_principal host settings decoded now (some (bearer r.0.access_token)) r.1
          ≡ ok (
              some (record {
                user = user;
                session = r.0.session;
                claims = claims_of (
                    whole_seconds
                      (issued_payload host settings user scope qr_restaurant_id minutes));
              }))
