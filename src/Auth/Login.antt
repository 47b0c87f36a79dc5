-- ===== src/Auth/Login.antt =====
-- Who may log in by `login_user` of app/services/auth.py.
use fofu_backend.Base.{
  ◌≡◌, ◌≢◌, ◌≤◌, refl, ap, subst, String, true, false, Option, none, some, arith, find, any,
  find-passes, find-Mem, find-none-All, find-only-All, Mem, All, All-map, count_if, eq_iff,
  Bool-cases, Option-cases, inl, inr, ◌⊎◌, ok, err, [], ◌∷◌, ◌++◌, ◌∙◌,
}
use fofu_backend.Push.Rows.{User, ClientType, Scope}
use fofu_backend.Utils.Locale.{is_blank}
use fofu_backend.Auth.Rows.{
  AuthDb, AuthSettings, Host, has_hash, has_email, set_sessions, invalid_credentials,
}
use fofu_backend.Auth.Issue.{
  IssuedCredentials, issue_session, new_session, sign, normal_email, password_matches, may_log_in,
  login_user,
}

-- A registered user, active, with the normal form of the email and with a hash that the password matches.
abbrev pub IsEntitled : Host → String → String → User → Type 0
IsEntitled host email password u =
    (u.email ≡ some (host.texts.casefold (host.texts.strip email)))
    × (u.is_guest ≡ false)
    × (u.is_active ≡ true)
    × ((h : String) × (u.password_hash ≡ some h)
        × (h ≢ "")
        × (host.crypto.verify password h ≡ some true))

has_email_of : (e : String) (u : User) → u.email ≡ some e → has_email e u ≡ true
has_email_of e u own = rw own ((eq_iff e e).1 refl)

email_of : (e : String) (u : User) → has_email e u ≡ true → u.email ≡ some e
email_of e u h = elim (Option-cases u.email) [
  | inl missing ↦ absurd (ground (arith, rw missing at h))
  | inr (t, own) ↦ own ∙ ap (λ s. some s) ((eq_iff t e).0 (rw own at h))
]

-- The guard of the login passes the entitled, and them only.
may_log_in-of :
    (host : Host) (email password : String) (u : User)
    → IsEntitled host email password u
    → may_log_in host.crypto password (some u) ≡ true
unfolding may_log_in password_matches
may_log_in-of host email password u (own, registered, active, hashed) =
    let (h, hash, there, matches) = hashed in
    elim (Bool-cases (is_blank h)) [
      | inl blank ↦ absurd (there ((eq_iff h "").0 blank))
      | inr full ↦ rw (hash, matches, full, registered, active) refl
    ]

matched_hash :
    (host : Host) (password : String) (u : User)
    → password_matches host.crypto password u.password_hash ≡ true
    → (h : String) × (u.password_hash ≡ some h)
      × (h ≢ "")
      × (host.crypto.verify password h ≡ some true)
unfolding password_matches
matched_hash host password u matches = elim (Option-cases u.password_hash) [
  | inl missing ↦ absurd (ground (arith, rw missing at matches))
  | inr (h, hash) ↦
      let good : password_matches host.crypto password (some h) ≡ true = rw hash at matches in
      (h, hash, λ empty. absurd (ground (arith, good, (eq_iff h "").1 empty)), ground (arith, good))
]

IsEntitled-of :
    (host : Host) (email password : String) (u : User)
    → has_email (normal_email host.texts email) u ≡ true
    → may_log_in host.crypto password (some u) ≡ true
    → IsEntitled host email password u
unfolding may_log_in password_matches
IsEntitled-of host email password u own allowed = (
  email_of (normal_email host.texts email) u own,
  ground (arith, allowed),
  ground (arith, allowed),
  matched_hash host password u (ground (arith, allowed)),
)

-- The row that is found by the email of an entitled user is let in.
pub login_user-entitled :
    (host : Host) (settings : AuthSettings) (email password : String) (client_type : ClientType)
    (device_id : Option String) (scope : Scope) (db : AuthDb) (u : User)
    → any (has_hash (host.crypto.digest host.entropy.refresh_token)) db.push.sessions ≡ false
    → find (has_email (normal_email host.texts email)) db.push.users ≡ some u
    → IsEntitled host email password u
    → (r : IssuedCredentials × AuthDb) × (login_user host settings email password client_type
          device_id scope db
        ≡ ok r)
      × (r.0.user ≡ u)
unfolding login_user issue_session new_session sign
login_user-entitled host settings email password client_type device_id scope db u fresh found good =
    let allowed = may_log_in-of host email password u good in
    (
      (
        sign host settings u (new_session host settings u client_type device_id scope none none)
            none,
        set_sessions
            (db.push.sessions
              ++ new_session host settings u client_type device_id scope none none ∷ [])
            db,
      ),
      rw (found, allowed, fresh) refl,
      refl,
    )

-- The login, where no two users have the email and the digest of the new token is new. Either there is a
-- user who is registered and active, has the email in its normal form and a hash that the password
-- matches, and the login returns credentials of this user; or no user is so, and every request, be it
-- that the email is unknown, the password wrong or the account closed, is answered by one error.
pub login_user-error :
    (host : Host) (settings : AuthSettings) (email password : String) (client_type : ClientType)
    (device_id : Option String) (scope : Scope) (db : AuthDb)
    → count_if (has_email (normal_email host.texts email)) db.push.users ≤ 1
    → any (has_hash (host.crypto.digest host.entropy.refresh_token)) db.push.sessions ≡ false
    → ((u : User) × Mem u db.push.users
        × IsEntitled host email password u
        × (r : IssuedCredentials × AuthDb) × (login_user host settings email password client_type
              device_id scope db
            ≡ ok r)
        × (r.0.user ≡ u))
      ⊎ ((login_user host settings email password client_type device_id scope db
            ≡ err invalid_credentials)
          × All (λ u. ¬ IsEntitled host email password u) db.push.users)
unfolding login_user
login_user-error host settings email password client_type device_id scope db unique fresh =
    let k = has_email (normal_email host.texts email) in
    elim (Option-cases (find k db.push.users)) [
      | inl missing ↦ inr (
        rw missing (unfold may_log_in in refl),
        All-map _ _ db.push.users
            (λ u other good. absurd (ground (arith, other, has_email_of _ u good.0)))
            (find-none-All k db.push.users missing),
      )
      | inr (u, found) ↦ elim (Bool-cases (may_log_in host.crypto password (some u))) [
        | inl allowed ↦
            let good =
              IsEntitled-of host email password u (find-passes k db.push.users found) allowed in
            let (r, returned, same) =
              login_user-entitled host settings email password client_type device_id scope db u
                fresh found good in
            inl (u, find-Mem k db.push.users found, good, r, returned, same)
        | inr denied ↦ inr (
          rw (found, denied) refl,
          All-map _ _ db.push.users
              (λ v only good. ground (
                arith,
                denied,
                may_log_in-of host email password u
                    (subst (IsEntitled host email password) (only (has_email_of _ v good.0)) good),
              ))
              (find-only-All k db.push.users found unique),
        )
      ]
    ]
