-- ===== src/Auth/Trust.antt =====
-- What app/google_identity.py has checked of a token whose identity it returns.
use fofu_backend.Base.{
  ℕ, zero, suc, ◌≡◌, ◌≤◌, refl, String, true, false, not, ◌||◌, Option, some, arith, some_inj,
  subst, ltb, is_empty, if-split, ok, Returns, Returns-map, Returns-or_raise, Returns-raise_if,
  Returns-elim, ◌⊎◌, inl, inr, sym, ap, any, any-Mem, Mem, List, none, Bool-cases, str_eq, eq_iff,
  ◌>>=◌,
}
use fofu_backend.Utils.Text.{text_length, clip, before}
use fofu_backend.Utils.Locale.{is_blank}
use fofu_backend.Auth.Rows.{
  google_auth_not_configured, google_email_not_verified, invalid_google_token, AuthSettings, Texts,
}
use fofu_backend.Auth.Identity.{
  Claim, GoogleClaims, verified, Google, VerifiedGoogleIdentity, is_google_issuer, audience_matches,
  Verification, transport_error, refused_token, is_accepted, claims_or_raise, verified_email,
  subject_of, claimed_name, display_name_of, trusted_identity, verify_google_id_token,
}

text_length-clip-le : (n : ℕ) (t : String) → text_length (clip n t) ≤ n
unfolding text_length clip
text_length-clip-le zero t = omega arith
text_length-clip-le (suc n) String.[] = omega arith
text_length-clip-le (suc n) (String.◌∷◌ c t) = omega (arith, text_length-clip-le n t)

claimed_name-le :
    (host_texts : Texts) (name : Claim) → text_length (claimed_name host_texts name) ≤ 100
unfolding claimed_name
claimed_name-le host_texts (Claim.text t) = text_length-clip-le 100 (host_texts.strip t)
claimed_name-le host_texts (Claim.texts ts) = unfold text_length in omega arith
claimed_name-le host_texts (Claim.truth b) = unfold text_length in omega arith
claimed_name-le host_texts Claim.other = unfold text_length in omega arith

-- A name of 1 to n characters.
abbrev pub IsName : ℕ → String → Type 0
IsName n t = (is_blank t ≡ false) × (text_length t ≤ n)

display_name_of-IsName :
    (host_texts : Texts) (name : Claim) (email : String)
    → IsName 100 (display_name_of host_texts name email)
unfolding display_name_of
display_name_of-IsName host_texts name email =
    if-split (IsName 100) (not (is_blank (claimed_name host_texts name)))
      (λ given. (ground (arith, given), claimed_name-le host_texts name))
      (λ missing.
        if-split (IsName 100) (is_blank (clip 100 (before b'@' email)))
          (λ blank. (refl, unfold text_length in omega arith))
          (λ there. (there, text_length-clip-le 100 (before b'@' email))))

subject_of-IsName :
    (host_texts : Texts) (claim : Claim) (subject : String)
    → subject_of host_texts claim ≡ some subject
    → IsName 255 subject
unfolding subject_of
subject_of-IsName host_texts (Claim.text t) subject given =
    let s = host_texts.strip t in
    if-split (λ (o : Option String). o ≡ some subject → IsName 255 subject)
      (is_blank s || ltb 255 (text_length s)) (λ bad e. absurd (ground arith))
      (λ good e. subst (IsName 255) (some_inj e) (ground (arith, good), ground (arith, good))) given
subject_of-IsName host_texts (Claim.texts ts) subject given = absurd (ground arith)
subject_of-IsName host_texts (Claim.truth b) subject given = absurd (ground arith)
subject_of-IsName host_texts Claim.other subject given = absurd (ground arith)

-- Google's name as the issuer of its identity tokens, in both spellings that it uses.
abbrev pub IsFromGoogle : Claim → Type 0
IsFromGoogle iss =
    (iss ≡ Claim.text "accounts.google.com") ⊎ (iss ≡ Claim.text "https://accounts.google.com")

-- One of the client ids is the audience or stands in its list.
abbrev pub IsMeantFor : List String → Claim → Type 0
IsMeantFor clients aud =
    (client : String) × Mem client clients
    × ((aud ≡ Claim.text client)
        ⊎ ((ts : List (Option String)) × (aud ≡ Claim.texts ts) × Mem (some client) ts))

-- The claim is the truth value, or the text in any case.
abbrev pub IsVerifiedEmail : Texts → Claim → Type 0
IsVerifiedEmail host_texts claim =
    (claim ≡ Claim.truth true)
    ⊎ ((t : String) × (claim ≡ Claim.text t) × (host_texts.casefold t ≡ "true"))

is_google_issuer-IsFromGoogle : (iss : Claim) → is_google_issuer iss ≡ true → IsFromGoogle iss
unfolding any
is_google_issuer-IsFromGoogle (Claim.text t) h =
    elim (Bool-cases (str_eq "accounts.google.com" t)) [
      | inl short ↦ inl (ap Claim.text (sym ((eq_iff "accounts.google.com" t).0 short)))
      | inr other ↦ inr (
          ap Claim.text
            (sym ((eq_iff "https://accounts.google.com" t).0 (ground (arith, h, other)))))
    ]
is_google_issuer-IsFromGoogle (Claim.texts ts) h = absurd (ground arith)
is_google_issuer-IsFromGoogle (Claim.truth b) h = absurd (ground arith)
is_google_issuer-IsFromGoogle Claim.other h = absurd (ground arith)

accepted_client :
    (clients : List String) (t : Option String)
    → is_accepted clients t ≡ true
    → (client : String) × Mem client clients × (t ≡ some client)
accepted_client clients none h = absurd (ground arith)
accepted_client clients (some t) h =
    let (client, there, same) = any-Mem (λ a. str_eq a t) clients h in
    (client, there, ap (λ s. some s) (sym ((eq_iff client t).0 same)))

audience_matches-IsMeantFor :
    (aud : Claim) (clients : List String)
    → audience_matches aud clients ≡ true
    → IsMeantFor clients aud
unfolding audience_matches
audience_matches-IsMeantFor (Claim.text t) clients h =
    let (client, there, same) = any-Mem (λ a. str_eq a t) clients h in
    (client, there, inl (ap Claim.text (sym ((eq_iff client t).0 same))))
audience_matches-IsMeantFor (Claim.texts ts) clients h =
    let (t, listed, hit) = any-Mem (is_accepted clients) ts h in
    let (client, there, same) = accepted_client clients t hit in
    (client, there, inr (ts, refl, subst (λ u. Mem u ts) same listed))
audience_matches-IsMeantFor (Claim.truth b) clients h = absurd (ground arith)
audience_matches-IsMeantFor Claim.other clients h = absurd (ground arith)

verified_email-IsVerifiedEmail :
    (host_texts : Texts) (claim : Claim)
    → verified_email host_texts claim ≡ true
    → IsVerifiedEmail host_texts claim
unfolding verified_email
verified_email-IsVerifiedEmail host_texts (Claim.truth b) h = inl (ap Claim.truth h)
verified_email-IsVerifiedEmail host_texts (Claim.text t) h =
    inr (t, refl, (eq_iff (host_texts.casefold t) "true").0 h)
verified_email-IsVerifiedEmail host_texts (Claim.texts ts) h = absurd (ground arith)
verified_email-IsVerifiedEmail host_texts Claim.other h = absurd (ground arith)

-- What the claims of a verified token say of the identity that is returned.
abbrev pub IsTrusted : Google → Texts → List String → GoogleClaims → VerifiedGoogleIdentity → Type 0
IsTrusted google host_texts clients claims identity =
    IsFromGoogle claims.iss
    × IsMeantFor clients claims.aud
    × IsVerifiedEmail host_texts claims.email_verified
    × ((sub : String) × (claims.sub ≡ Claim.text sub) × (identity.subject ≡ host_texts.strip sub))
    × ((address : String) × (google.validate_email claims.email ≡ some address)
        × (identity.email ≡ host_texts.casefold (host_texts.strip address)))
    × IsName 255 identity.subject
    × IsName 100 identity.display_name

claimed_subject :
    (host_texts : Texts) (claim : Claim) (subject : String)
    → subject_of host_texts claim ≡ some subject
    → (sub : String) × (claim ≡ Claim.text sub) × (subject ≡ host_texts.strip sub)
unfolding subject_of
claimed_subject host_texts (Claim.text t) subject given =
    let s = host_texts.strip t in
    (
      t,
      refl,
      if-split (λ (o : Option String). o ≡ some subject → subject ≡ s)
          (is_blank s || ltb 255 (text_length s)) (λ bad e. absurd (ground arith))
          (λ good e. sym (some_inj e)) given,
    )
claimed_subject host_texts (Claim.texts ts) subject given = absurd (ground arith)
claimed_subject host_texts (Claim.truth b) subject given = absurd (ground arith)
claimed_subject host_texts Claim.other subject given = absurd (ground arith)

trusted_identity-IsTrusted :
    (google : Google) (host_texts : Texts) (clients : List String) (claims : GoogleClaims)
    → Returns
        (IsTrusted google host_texts clients claims)
        (trusted_identity google host_texts clients claims)
unfolding trusted_identity
trusted_identity-IsTrusted google host_texts clients claims =
    Returns-raise_if P (not (is_google_issuer claims.iss)) invalid_google_token _ λ issued.
      Returns-raise_if P (not (audience_matches claims.aud clients)) invalid_google_token _ λ meant.
        Returns-or_raise P (subject_of host_texts claims.sub) invalid_google_token _
          λ subject named.
            Returns-raise_if P (not (verified_email host_texts claims.email_verified))
              google_email_not_verified _
              λ checked.
                Returns-or_raise P (google.validate_email claims.email) invalid_google_token _
                  λ address valid. (
                    is_google_issuer-IsFromGoogle claims.iss (ground (arith, issued)),
                    audience_matches-IsMeantFor claims.aud clients (ground (arith, meant)),
                    verified_email-IsVerifiedEmail host_texts claims.email_verified
                        (ground (arith, checked)),
                    claimed_subject host_texts claims.sub subject named,
                    (address, valid, refl),
                    subject_of-IsName host_texts claims.sub subject named,
                    display_name_of-IsName host_texts claims.name
                        (host_texts.casefold (host_texts.strip address)),
                  )
  where
    P : VerifiedGoogleIdentity → Type 0
    P = IsTrusted google host_texts clients claims

-- An identity is returned only of a token that google-auth has verified. The token's claims name Google as
-- the issuer, one of this application's client ids as the audience or in its list, and the email as
-- verified; the subject is that of the claims, of 1 to 255 characters, the email is the one of the claims
-- that has been found valid, in its normal form, and the display name has 1 to 100 characters.
pub verify_google_id_token-IsTrusted :
    (google : Google) (host_texts : Texts) (settings : AuthSettings) (token : String)
    {identity : VerifiedGoogleIdentity}
    → verify_google_id_token google host_texts settings token ≡ ok identity
    → (claims : GoogleClaims) × (google.verify_oauth2_token (host_texts.strip token)
        ≡ verified claims)
      × IsTrusted google host_texts settings.google_oauth_client_ids claims identity
verify_google_id_token-IsTrusted google host_texts settings token {identity} returned =
    Returns-elim P (verify_google_id_token google host_texts settings token)
      (unfold verify_google_id_token in
        Returns-raise_if P (is_empty settings.google_oauth_client_ids) google_auth_not_configured _
          λ configured. of_answer (google.verify_oauth2_token (host_texts.strip token)) refl)
      returned
  where
    P : VerifiedGoogleIdentity → Type 0
    P r =
        (claims : GoogleClaims) × (google.verify_oauth2_token (host_texts.strip token)
          ≡ verified claims)
        × IsTrusted google host_texts settings.google_oauth_client_ids claims r

    of_answer :
        (v : Verification)
        → google.verify_oauth2_token (host_texts.strip token) ≡ v
        → Returns P (
            claims_or_raise v >>= λ claims.
            trusted_identity google host_texts settings.google_oauth_client_ids claims)
    of_answer (verified claims) answer =
        Returns-map (IsTrusted google host_texts settings.google_oauth_client_ids claims) P
          (trusted_identity google host_texts settings.google_oauth_client_ids claims)
          (λ r good. (claims, answer, good))
          (trusted_identity-IsTrusted google host_texts settings.google_oauth_client_ids claims)
    of_answer transport_error answer = tt
    of_answer refused_token answer = tt
