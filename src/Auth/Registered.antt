-- ===== src/Auth/Registered.antt =====
-- The row that a registration by app/services/auth.py leaves, and the search that finds it by its email.
use fofu_backend.Base.{
  Uuid, ◌≡◌, ◌≢◌, ◌≤◌, refl, sym, ap, ◌∙◌, String, Bool, true, false, not, ◌&&◌, ◌||◌, Option, none,
  some, List, [], ◌∷◌, arith, ◌==◌, eq_iff, find, find-any, find-appended, find-passes,
  find-updated, find-count_if, find-some-any, any-failing, any, count_if, update_where, some_inj,
  ok, err, Returns, Returns-bind, Returns-raise_if, Returns-or_raise, Returns-elim,
}
use fofu_backend.Push.Rows.{User, ClientType, full}
use fofu_backend.Auth.Rows.{
  AuthDb, AuthSettings, Host, Entropy, Clock, set_users, has_hash, has_email, already_registered,
  email_already_registered, guest_upgrade_conflict, integrity_error,
}
use fofu_backend.Auth.Revoke.{revoke_active_sessions_for_guest_upgrade}
use fofu_backend.Auth.Issue.{
  IssuedCredentials, issue_session, insert_user, sign, user_by_id, normal_email, login_user,
}
use fofu_backend.Auth.Register.{
  Registration, is_claimable, is_email_of_other, claim_guest_upgrade, new_user, upgrade_guest,
  registered_user, register_user,
}
use fofu_backend.Auth.Upgrade.{Returns-on_integrity_error}
use fofu_backend.Auth.Emails.{is_user, revoked-users}
use fofu_backend.Auth.Login.{login_user-entitled}

-- The search by email finds the user, who is registered with the form's email and password.
abbrev IsRegistered : Host → Registration → User × AuthDb → Type 0
IsRegistered host form r =
    (find (has_email form.email) r.1.push.users ≡ some r.0)
    × (r.0.email ≡ some form.email)
    × (r.0.is_guest ≡ false)
    × (r.0.is_active ≡ true)
    × (r.0.password_hash ≡ some (host.crypto.hash host.entropy.salt form.password))

-- Neither another user's email nor a second row with the id hides the row that is claimed.
abbrev is_rival : String → Uuid → User → Bool
is_rival email user_id u =
    is_email_of_other email user_id u || (is_user user_id u && not (u.is_guest && u.is_active))

any-or-false {ℓ} :
    {A : Type ℓ} (p q : A → Bool) (xs : List A)
    → any p xs ≡ false
    → any q xs ≡ false
    → any (λ x. p x || q x) xs ≡ false
unfolding any
any-or-false p q [] h k = refl
any-or-false p q (x ∷ xs) h k = ground (arith, h, k, any-or-false p q xs)

claim_guest_upgrade-IsRegistered :
    (host : Host) (form : Registration) (user_id : Uuid) (roles : List String) (db : AuthDb)
    → count_if (is_user user_id) db.push.users ≤ 1
    → Returns
        (IsRegistered host form)
        (claim_guest_upgrade user_id form.email (upgrade_guest host form roles) db)
unfolding claim_guest_upgrade
claim_guest_upgrade-IsRegistered host form user_id roles db alone =
    Returns-raise_if P (not (count_if (is_claimable user_id) db.push.users == 1))
      guest_upgrade_conflict _
      λ claimable.
        Returns-raise_if P (any (is_email_of_other form.email user_id) db.push.users)
          integrity_error _
          λ free. Returns-or_raise P (user_by_id user_id db') guest_upgrade_conflict _ λ user known.
            let one : count_if (is_claimable user_id) db.push.users ≡ 1 =
              ground (arith, claimable) in
            let (x, hit) = find-count_if (is_claimable user_id) db.push.users one in
            let clear =
              any-or-false (is_email_of_other form.email user_id)
                (λ u. is_user user_id u && not (u.is_guest && u.is_active)) db.push.users free
                (any-failing (is_user user_id) (λ u. u.is_guest && u.is_active) db.push.users alone
                  one) in
            let passes = find-passes (is_claimable user_id) db.push.users hit in
            let by_id =
              find-updated (is_user user_id) (is_claimable user_id) (is_rival form.email user_id)
                upgrade db.push.users hit
                (λ y claimed. unfold upgrade_guest in ground (arith, claimed))
                (λ y untaken other. ground (arith, untaken, other)) clear in
            let by_email =
              find-updated (has_email form.email) (is_claimable user_id)
                (is_rival form.email user_id) upgrade db.push.users hit
                (λ y claimed. unfold upgrade_guest in (eq_iff _ _).1 refl)
                (λ y untaken other. ground (arith, untaken, other)) clear in
            let same : user ≡ upgrade x = some_inj (sym known ∙ unfold user_by_id in by_id) in
            (
              by_email ∙ ap (λ u. some u) (sym same),
              ap (λ (u : User). u.email) same ∙ unfold upgrade_guest in refl,
              ap (λ (u : User). u.is_guest) same ∙ unfold upgrade_guest in refl,
              ap (λ (u : User). u.is_active) same ∙ unfold upgrade_guest in ground (arith, passes),
              ap (λ (u : User). u.password_hash) same ∙ unfold upgrade_guest in refl,
            )
  where
    upgrade : User → User
    upgrade = upgrade_guest host form roles

    db' : AuthDb
    db' = set_users (update_where (is_claimable user_id) upgrade db.push.users) db

    P : User × AuthDb → Type 0
    P = IsRegistered host form

registered_user-IsRegistered :
    (host : Host) (form : Registration) (guest_user : Option User) (db : AuthDb)
    → ((i : Uuid) → count_if (is_user i) db.push.users ≤ 1)
    → Returns (IsRegistered host form) (registered_user host form guest_user db)
unfolding registered_user
registered_user-IsRegistered host form none db alone =
    Returns-raise_if (IsRegistered host form) (any (has_email form.email) db.push.users)
      integrity_error _
      (λ free.
        unfold new_user insert_user in
        (
          find-appended (has_email form.email) db.push.users (new_user host form)
              (find-any (has_email form.email) db.push.users free) ((eq_iff _ _).1 refl),
          refl,
          refl,
          refl,
          refl,
        ))
registered_user-IsRegistered host form (some g) db alone =
    Returns-raise_if (IsRegistered host form) (not g.is_guest) already_registered _ λ is_one.
      Returns-bind (IsRegistered host form) (IsRegistered host form)
        (claim_guest_upgrade g.id form.email (upgrade_guest host form g.roles) db) _
        (claim_guest_upgrade-IsRegistered host form g.id g.roles db (alone g.id))
        (λ claimed kept.
          unfold revoke_active_sessions_for_guest_upgrade in
          rw
            (revoked-users form.email (λ s. s.user_id == claimed.0.id) none (some claimed.0.id)
              host.clock.revoked host.clock.retired claimed.1)
            kept)

-- A session is issued to the user, and changes no user.
issue_session-IsRegistered :
    (host : Host) (settings : AuthSettings) (form : Registration) (user : User)
    (client_type : ClientType) (device_id : Option String) (db : AuthDb)
    → IsRegistered host form (user, db)
    → Returns
        (λ r. IsRegistered host form (r.0.user, r.1))
        (issue_session host settings user client_type device_id full none none none db)
unfolding issue_session sign
issue_session-IsRegistered host settings form user client_type device_id db kept =
    Returns-raise_if (λ (r : IssuedCredentials × AuthDb). IsRegistered host form (r.0.user, r.1))
      (any (has_hash (host.crypto.digest host.entropy.refresh_token)) db.push.sessions)
      integrity_error _ (λ free. kept)

register_user-IsRegistered :
    (host : Host) (settings : AuthSettings) (form : Registration) (client_type : ClientType)
    (device_id : Option String) (guest_user : Option User) (seen db : AuthDb)
    → ((i : Uuid) → count_if (is_user i) db.push.users ≤ 1)
    → Returns
        (λ r.
          IsRegistered host
            (record form { email = normal_email host.texts form.email })
            (r.0.user, r.1))
        (register_user host settings form client_type device_id guest_user seen db)
unfolding register_user
register_user-IsRegistered host settings form client_type device_id guest_user seen db alone =
    Returns-raise_if P (any (has_email normalized.email) seen.push.users) email_already_registered _
      λ unseen. Returns-on_integrity_error P email_already_registered _ (
        Returns-bind (IsRegistered host normalized) P
          (registered_user host normalized guest_user db) _
          (registered_user-IsRegistered host normalized guest_user db alone)
          (λ r kept.
            issue_session-IsRegistered host settings normalized r.0 client_type device_id r.1 kept))
  where
    normalized : Registration
    normalized = record form { email = normal_email host.texts form.email }

    P : IssuedCredentials × AuthDb → Type 0
    P r = IsRegistered host normalized (r.0.user, r.1)

-- A new account, or a guest's upgrade, can be used and is taken. Ids are unique, and the password's hash is
-- not empty and one that the password matches. After a registration that succeeds, every registration with
-- an email of the same normal form, whose first query reads the tables that this one leaves, is refused;
-- and the login with the form's email and password returns credentials of the registered user, where the
-- digest of its token is new.
pub register_user-login :
    (host : Host) (settings : AuthSettings) (form again : Registration) (client_type : ClientType)
    (device_id : Option String) (guest_user other : Option User) (seen db between : AuthDb)
    (later : Entropy) (clock : Clock) {c : IssuedCredentials} {db' : AuthDb}
    → ((i : Uuid) → count_if (is_user i) db.push.users ≤ 1)
    → host.crypto.hash host.entropy.salt form.password ≢ ""
    → host.crypto.verify form.password (host.crypto.hash host.entropy.salt form.password)
      ≡ some true
    → normal_email host.texts again.email ≡ normal_email host.texts form.email
    → any (has_hash (host.crypto.digest later.refresh_token)) db'.push.sessions ≡ false
    → register_user host settings form client_type device_id guest_user seen db ≡ ok (c, db')
    → let host' = record host { entropy = later; clock = clock } in
      (register_user host' settings again client_type device_id other db' between
        ≡ err email_already_registered)
      × (r : IssuedCredentials × AuthDb) × (login_user host' settings form.email form.password
            client_type device_id full db'
          ≡ ok r)
      × (r.0.user ≡ c.user)
register_user-login host settings form again client_type device_id guest_user other seen db between
      later clock {c} {db'} alone there matches same fresh registered =
    let (found, own, registered_one, active, hash) =
      Returns-elim
        (λ (r : IssuedCredentials × AuthDb).
          IsRegistered host (record form { email = normal_email host.texts form.email })
            (r.0.user, r.1))
        (register_user host settings form client_type device_id guest_user seen db)
        (register_user-IsRegistered host settings form client_type device_id guest_user seen db
          alone)
        registered in
    let host' = record host { entropy = later; clock = clock } in
    let (r, returned, user_is) =
      login_user-entitled host' settings form.email form.password client_type device_id full db'
        c.user fresh found
        (
          own,
          registered_one,
          active,
          (host.crypto.hash host.entropy.salt form.password, hash, there, matches),
        ) in
    (
      unfold register_user in
          rw
            (
              same,
              find-some-any (has_email (normal_email host.texts form.email)) db'.push.users found,
            )
            refl,
      r,
      returned,
      user_is,
    )
