-- ===== src/Auth/Identity.antt =====
-- app/google_identity.py: the claims of a Google identity token that account logic trusts. The token's
-- verification (google-auth) and the check of an email address (pydantic) are parameters.
use fofu_backend.Base.{
  ltb, String, Bool, false, not, ◌||◌, Option, none, some, List, [], ◌∷◌, str_eq, any, is_empty,
  if◌then◌else◌, Result, ok, err, raise_if, or_raise, ◌>>=◌, ◌>>◌,
}
use fofu_backend.Utils.Text.{text_length, clip, before}
use fofu_backend.Utils.Locale.{is_blank}
use fofu_backend.Auth.Rows.{
  AuthServiceError, google_auth_not_configured, google_auth_unavailable, invalid_google_token,
  google_email_not_verified, AuthSettings, Texts,
}

-- A claim that may be a text, a list, a truth value or something else.
pub data Claim : Type 0 where
  text : String → Claim
  texts : List (Option String) → Claim
  truth : Bool → Claim
  other : Claim

pub record GoogleClaims : Type 0 where
  pub iss : Claim
  pub aud : Claim
  pub sub : Claim
  pub email_verified : Claim
  pub email : Claim
  pub name : Claim

-- What `verify_oauth2_token` does: returns the claims, fails in transport, or refuses the token.
pub data Verification : Type 0 where
  verified : GoogleClaims → Verification
  transport_error refused_token : Verification

pub record Google : Type 0 where
  pub verify_oauth2_token : String → Verification
  pub validate_email : Claim → Option String

pub record VerifiedGoogleIdentity : Type 0 where
  pub subject : String
  pub email : String
  pub display_name : String

abbrev pub one_of : List String → String → Bool
one_of accepted t = any (λ a. str_eq a t) accepted

abbrev pub is_google_issuer : Claim → Bool
is_google_issuer (text t) = one_of ("accounts.google.com" ∷ "https://accounts.google.com" ∷ []) t
is_google_issuer _ = false

abbrev pub is_accepted : List String → Option String → Bool
is_accepted accepted none = false
is_accepted accepted (some t) = one_of accepted t

unfoldable pub audience_matches : Claim → List String → Bool
audience_matches (text t) accepted = one_of accepted t
audience_matches (texts ts) accepted = any (is_accepted accepted) ts
audience_matches _ accepted = false

unfoldable pub verified_email : Texts → Claim → Bool
verified_email host_texts (truth b) = b
verified_email host_texts (text t) = str_eq (host_texts.casefold t) "true"
verified_email host_texts _ = false

-- The subject, where it is a text of 1 to 255 characters.
unfoldable pub subject_of : Texts → Claim → Option String
unfolding text_length
subject_of host_texts (text t) =
    let subject = host_texts.strip t in
    if is_blank subject || ltb 255 (text_length subject) then none else some subject
subject_of host_texts _ = none

unfoldable pub claimed_name : Texts → Claim → String
unfolding clip
claimed_name host_texts (text t) = clip 100 (host_texts.strip t)
claimed_name host_texts _ = ""

unfoldable pub display_name_of : Texts → Claim → String → String
unfolding claimed_name clip before
display_name_of host_texts name email =
    let claimed = claimed_name host_texts name in
    let local = clip 100 (before b'@' email) in
    if not (is_blank claimed) then claimed else if is_blank local then "Google User" else local

-- The checks on the claims of a token whose signature and times are good.
unfoldable pub trusted_identity :
    Google → Texts → List String → GoogleClaims → Result AuthServiceError VerifiedGoogleIdentity
unfolding audience_matches verified_email subject_of display_name_of
trusted_identity google host_texts accepted claims =
    raise_if (not (is_google_issuer claims.iss)) invalid_google_token
    >> (raise_if (not (audience_matches claims.aud accepted)) invalid_google_token
        >> (or_raise (subject_of host_texts claims.sub) invalid_google_token >>= λ subject.
            raise_if (not (verified_email host_texts claims.email_verified))
              google_email_not_verified
            >> (or_raise (google.validate_email claims.email) invalid_google_token >>= λ address.
                let email = host_texts.casefold (host_texts.strip address) in
                ok (record {
                  subject = subject;
                  email = email;
                  display_name = display_name_of host_texts claims.name email;
                }))))

abbrev pub claims_or_raise : Verification → Result AuthServiceError GoogleClaims
claims_or_raise (verified claims) = ok claims
claims_or_raise transport_error = err google_auth_unavailable
claims_or_raise refused_token = err invalid_google_token

unfoldable pub verify_google_id_token :
    Google → Texts → AuthSettings → String → Result AuthServiceError VerifiedGoogleIdentity
unfolding trusted_identity
verify_google_id_token google host_texts settings token =
    raise_if (is_empty settings.google_oauth_client_ids) google_auth_not_configured
    >> (claims_or_raise (google.verify_oauth2_token (host_texts.strip token)) >>= λ claims.
        trusted_identity google host_texts settings.google_oauth_client_ids claims)
