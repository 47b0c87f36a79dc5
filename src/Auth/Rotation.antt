-- ===== src/Auth/Rotation.antt =====
-- The rotation of refresh tokens in app/services/auth.py: each token is good once, and what a session
-- keeps.
use fofu_backend.Base.{
  eq_iff, max, min, Uuid, Time, ◌≤◌, ◌<◌, is_ok, find_unique, find-updated, any-none, ◌≡◌, refl,
  ◌*◌, ◌/◌, ◌-◌, String, true, false, some, arith, ◌==◌, ==_refl, str_eq, find, any, count_if,
  find-any, any-update_lost, ok, err, Returns-or_raise, Returns-raise_if, Returns-elim,
}
use fofu_backend.Push.Rows.{AuthSession, User, qr_guest, second}
use fofu_backend.Auth.Rows.{
  minute, AuthDb, AuthSettings, invalid_refresh_token, integrity_error, Host, Entropy, Clock,
  has_hash,
}
use fofu_backend.Auth.Tokens.{create_access_token, access_payload}
use fofu_backend.Auth.Issue.{
  IssuedCredentials, rotate, rotated_minutes, user_by_id, is_refused, is_hash_taken, sign,
  rotate_refresh_token,
}

pub rotate-hash :
    (host : Host) (settings : AuthSettings) (now : Time) (s : AuthSession)
    → (rotate host settings now s).refresh_token_hash
      ≡ host.crypto.digest host.entropy.refresh_token
unfolding rotate
rotate-hash host settings now s = ground arith

-- The columns that a rotation leaves.
pub rotate-keeps :
    (host : Host) (settings : AuthSettings) (now : Time) (s : AuthSession)
    → ((rotate host settings now s).id ≡ s.id)
      × ((rotate host settings now s).user_id ≡ s.user_id)
      × ((rotate host settings now s).scope ≡ s.scope)
      × ((rotate host settings now s).qr_restaurant_id ≡ s.qr_restaurant_id)
      × ((rotate host settings now s).is_guest_at_issue ≡ s.is_guest_at_issue)
      × ((rotate host settings now s).revoked_at ≡ s.revoked_at)
unfolding rotate
rotate-keeps host settings now s =
    (ground arith, ground arith, ground arith, ground arith, ground arith, ground arith)

unknown_token :
    (host : Host) (settings : AuthSettings) (token : String) (db : AuthDb)
    → any (has_hash (host.crypto.digest token)) db.push.sessions ≡ false
    → rotate_refresh_token host settings token db ≡ err invalid_refresh_token
unfolding rotate_refresh_token
unknown_token host settings token db gone =
    rw (find-any (has_hash (host.crypto.digest token)) db.push.sessions gone) refl

-- A refresh token is good once: after a rotation that succeeds it is refused, whoever presents it and
-- whenever, where no two sessions had its digest and the new token has another digest.
pub rotate_refresh_token-spent :
    (host : Host) (settings : AuthSettings) (token : String) (db : AuthDb) (later : Entropy)
    (clock : Clock) {c : IssuedCredentials} {db' : AuthDb}
    → count_if (has_hash (host.crypto.digest token)) db.push.sessions ≤ 1
    → str_eq (host.crypto.digest host.entropy.refresh_token) (host.crypto.digest token) ≡ false
    → rotate_refresh_token host settings token db ≡ ok (c, db')
    → rotate_refresh_token (record host { entropy = later; clock = clock }) settings token db'
      ≡ err invalid_refresh_token
rotate_refresh_token-spent host settings token db later clock {c} {db'} unique fresh rotated =
    Returns-elim P (rotate_refresh_token host settings token db)
      (unfold rotate_refresh_token in
        Returns-or_raise P (find (has_hash (host.crypto.digest token)) db.push.sessions)
          invalid_refresh_token _
          λ s found.
            Returns-or_raise P (user_by_id s.user_id db) invalid_refresh_token _ λ user known.
              Returns-raise_if P (is_refused host.clock.issued s user) invalid_refresh_token _
                λ live.
                  Returns-raise_if P
                    (any (is_hash_taken (host.crypto.digest host.entropy.refresh_token) s)
                      db.push.sessions)
                    integrity_error _
                    λ free.
                      unknown_token (record host { entropy = later; clock = clock }) settings token
                        _
                        (any-update_lost (has_hash (host.crypto.digest token))
                          (λ (t : AuthSession). t.id == s.id)
                          (rotate host settings host.clock.issued) db.push.sessions found unique
                          (==_refl s.id)
                          (λ y. rw (rotate-hash host settings host.clock.issued y) fresh)))
      rotated
  where
    P : IssuedCredentials × AuthDb → Type 0
    P r =
        rotate_refresh_token (record host { entropy = later; clock = clock }) settings token r.1
        ≡ err invalid_refresh_token

good_token :
    (host : Host) (settings : AuthSettings) (token : String) (s : AuthSession) (user : User)
    (db : AuthDb)
    → find (has_hash (host.crypto.digest token)) db.push.sessions ≡ some s
    → user_by_id s.user_id db ≡ some user
    → is_refused host.clock.issued s user ≡ false
    → any (has_hash (host.crypto.digest host.entropy.refresh_token)) db.push.sessions ≡ false
    → is_ok (rotate_refresh_token host settings token db) ≡ true
unfolding rotate_refresh_token
good_token host settings token s user db found known live clear =
    rw
      (
        found,
        known,
        live,
        any-none (is_hash_taken (host.crypto.digest host.entropy.refresh_token) s)
            (has_hash (host.crypto.digest host.entropy.refresh_token)) db.push.sessions
            (λ y e. ground (arith, e)) clear,
      )
      refl

still_good :
    (host : Host) (settings : AuthSettings) (then : Time) (s : AuthSession) (user : User)
    → is_refused host.clock.issued s user ≡ false
    → then < (rotate host settings host.clock.issued s).expires_at
    → is_refused then (rotate host settings host.clock.issued s) user ≡ false
still_good host settings then s user live early =
    let kept = rotate-keeps host settings host.clock.issued s in
    rw (kept.4, kept.5) (ground (arith, live, early))

-- The new token of a rotation is good: where ids and digests are unique, it can be rotated again before
-- the session's end, as long as the user is as before and the next token's digest is new.
pub rotate_refresh_token-renewed :
    (host : Host) (settings : AuthSettings) (token : String) (db : AuthDb) (later : Entropy)
    (clock : Clock) {c : IssuedCredentials} {db' : AuthDb}
    → ((i : Uuid) → count_if (λ (s : AuthSession). s.id == i) db.push.sessions ≤ 1)
    → rotate_refresh_token host settings token db ≡ ok (c, db')
    → any (has_hash (host.crypto.digest later.refresh_token)) db'.push.sessions ≡ false
    → clock.issued < c.session.expires_at
    → is_ok (
        rotate_refresh_token
          (record host { entropy = later; clock = clock })
          settings
          host.entropy.refresh_token
          db')
      ≡ true
rotate_refresh_token-renewed host settings token db later clock {c} {db'} unique rotated fresh
      early =
    Returns-elim P (rotate_refresh_token host settings token db)
      (unfold rotate_refresh_token in
        Returns-or_raise P (find (has_hash (host.crypto.digest token)) db.push.sessions)
          invalid_refresh_token _
          λ s found.
            Returns-or_raise P (user_by_id s.user_id db) invalid_refresh_token _ λ user known.
              Returns-raise_if P (is_refused host.clock.issued s user) invalid_refresh_token _
                λ live.
                  Returns-raise_if P
                    (any (is_hash_taken (host.crypto.digest host.entropy.refresh_token) s)
                      db.push.sessions)
                    integrity_error _
                    λ free fresh' early'.
                      good_token (record host { entropy = later; clock = clock }) settings
                        host.entropy.refresh_token (rotate host settings host.clock.issued s) user _
                        (find-updated (has_hash (host.crypto.digest host.entropy.refresh_token))
                          (λ (t : AuthSession). t.id == s.id)
                          (is_hash_taken (host.crypto.digest host.entropy.refresh_token) s)
                          (rotate host settings host.clock.issued) db.push.sessions
                          (find_unique (has_hash (host.crypto.digest token))
                            (λ (t : AuthSession). t.id == s.id) db.push.sessions found
                            (==_refl s.id) (unique s.id))
                          (λ y _.
                            rw (rotate-hash host settings host.clock.issued y)
                              ((eq_iff _ _).1 refl))
                          (λ y untaken other. ground (arith, untaken, other)) free)
                        (unfold user_by_id in
                          rw (rotate-keeps host settings host.clock.issued s).1 known)
                        (still_good host settings clock.issued s user live early') fresh')
      rotated fresh early
  where
    P : IssuedCredentials × AuthDb → Type 0
    P r =
        any (has_hash (host.crypto.digest later.refresh_token)) r.1.push.sessions ≡ false
        → clock.issued < r.0.session.expires_at
        → is_ok (
            rotate_refresh_token (record host { entropy = later; clock = clock }) settings
              host.entropy.refresh_token r.1)
          ≡ true

-- The seconds of an access token for a QR session.
qr_seconds :
    (host : Host) (settings : AuthSettings) (user : User) (session s : AuthSession)
    → s.scope ≡ qr_guest
    → (sign host settings user session
        (some (rotated_minutes settings host.clock.issued s))).expires_in
      ≡ 60
        * max 1 (min settings.qr_guest_token_minutes ((s.expires_at - host.clock.issued) / minute))
unfolding sign rotated_minutes create_access_token access_payload
qr_seconds host settings user session s qr = rw qr (ground arith)

qr_end :
    (host : Host) (settings : AuthSettings) (now : Time) (s : AuthSession)
    → s.scope ≡ qr_guest
    → (rotate host settings now s).expires_at ≡ s.expires_at
unfolding rotate
qr_end host settings now s qr = rw qr refl

-- The rotation of a guest's session of a QR code, found by its token: it never ends later than before,
-- and its access token is for whole minutes, no more of them than the settings say nor, beyond the
-- first, than are left of the session.
pub rotate_refresh_token-qr_bounds :
    (host : Host) (settings : AuthSettings) (token : String) (db : AuthDb) {s : AuthSession}
    {c : IssuedCredentials} {db' : AuthDb}
    → find (has_hash (host.crypto.digest token)) db.push.sessions ≡ some s
    → s.scope ≡ qr_guest
    → rotate_refresh_token host settings token db ≡ ok (c, db')
    → (c.session.expires_at ≡ s.expires_at)
      × (60 ≤ c.expires_in)
      × (c.expires_in ≤ 60 * max 1 settings.qr_guest_token_minutes)
      × (c.expires_in * second ≤ max minute (s.expires_at - host.clock.issued))
rotate_refresh_token-qr_bounds host settings token db {s} {c} {db'} held qr rotated =
    Returns-elim P (rotate_refresh_token host settings token db)
      (unfold rotate_refresh_token in
        rw held (
          Returns-or_raise P (user_by_id s.user_id db) invalid_refresh_token _ λ user known.
            Returns-raise_if P (is_refused host.clock.issued s user) invalid_refresh_token _ λ live.
              Returns-raise_if P
                (any (is_hash_taken (host.crypto.digest host.entropy.refresh_token) s)
                  db.push.sessions)
                integrity_error _
                λ free.
                  let seconds =
                    qr_seconds host settings user (rotate host settings host.clock.issued s) s qr in
                  (
                    qr_end host settings host.clock.issued s qr,
                    rw seconds (ground arith),
                    rw seconds (ground arith),
                    rw seconds (ground arith),
                  )))
      rotated
  where
    P : IssuedCredentials × AuthDb → Type 0
    P r =
        (r.0.session.expires_at ≡ s.expires_at)
        × (60 ≤ r.0.expires_in)
        × (r.0.expires_in ≤ 60 * max 1 settings.qr_guest_token_minutes)
        × (r.0.expires_in * second ≤ max minute (s.expires_at - host.clock.issued))
