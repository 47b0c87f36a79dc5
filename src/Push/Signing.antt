-- ===== src/Push/Signing.antt =====
-- How often `APNsSender` of app/services/push.py signs provider tokens; Apple refuses more than one in
-- twenty minutes.
use fofu_backend.Base.{
  ℕ, ◌+◌, ◌≡◌, ◌≤◌, ◌⊎◌, refl, sym, ap, ◌∙◌, some_inj, not, String, inl, inr, Bool, false, Option,
  some, subst, List, [], ◌∷◌, arith, str_eq, ltb, ◌==◌, if-split,
}
use fofu_backend.Push.Claim.{ClaimedDelivery}
use fofu_backend.Push.Finish.{ApnsResult}
use fofu_backend.Push.Sender.{
  ProviderToken, minutes, signed, is_usable, provider_token, refresh_rejected_provider_token,
  TokenCall, asks, had_refused, token_call, token_calls, ApnsAnswer, http_error, answered,
  ApnsClient, clipped_reason, after_rejection, read_answer, send,
}

-- The cache holds the token as it was, or one signed twenty minutes later or more.
abbrev pub IsApart : ProviderToken → Option ProviderToken → Type 0
IsApart p cache =
    (q : ProviderToken) × (cache ≡ some q) × ((q ≡ p) ⊎ (p.signed_at + minutes 20 ≤ q.signed_at))

provider_token-IsApart :
    (sign : ℕ → String) (now : ℕ) (p : ProviderToken)
    → IsApart p (some (provider_token sign false now (some p)))
unfolding provider_token
provider_token-IsApart sign now p =
    if-split (λ q. IsApart p (some q)) (is_usable now p) (λ _. (p, refl, inl refl))
      (λ old. (signed sign now, refl, inr (ground (arith, old))))

IsApart-trans :
    (p q : ProviderToken) (cache : Option ProviderToken)
    → IsApart p (some q)
    → IsApart q cache
    → IsApart p cache
IsApart-trans p q cache (q', same, apart) (r, held, later) = (r, held, chained apart later)
  where
    q'_is : q' ≡ q
    q'_is = sym (some_inj same)

    chained :
        (q' ≡ p) ⊎ (p.signed_at + minutes 20 ≤ q'.signed_at)
        → (r ≡ q) ⊎ (q.signed_at + minutes 20 ≤ r.signed_at)
        → (r ≡ p) ⊎ (p.signed_at + minutes 20 ≤ r.signed_at)
    chained (inl a) (inl b) = inl (b ∙ (sym q'_is ∙ a))
    chained (inl a) (inr b) =
        inr (omega (arith, b, ap (λ (t : ProviderToken). t.signed_at) (sym q'_is ∙ a)))
    chained (inr a) (inl b) =
        inr (omega (arith, a, ap (λ (t : ProviderToken). t.signed_at) (b ∙ sym q'_is)))
    chained (inr a) (inr b) =
        inr (omega (arith, a, b, ap (λ (t : ProviderToken). t.signed_at) q'_is))

refresh-IsApart :
    (sign : ℕ → String) (token : String) (now : ℕ) (p : ProviderToken)
    → IsApart p (refresh_rejected_provider_token sign token now (some p)).1
unfolding refresh_rejected_provider_token
refresh-IsApart sign token now p =
    if-split (λ (r : Bool × Option ProviderToken). IsApart p r.1) (not (str_eq p.encoded token))
      (λ _. (p, refl, inl refl))
      (λ _.
        if-split (λ (r : Bool × Option ProviderToken). IsApart p r.1)
          (ltb now (p.signed_at + minutes 20)) (λ _. (p, refl, inl refl))
          (λ old. (signed sign now, refl, inr (ground (arith, old)))))

token_call-IsApart :
    (sign : ℕ → String) (c : TokenCall) (p : ProviderToken) → IsApart p (token_call sign c (some p))
unfolding token_call
token_call-IsApart sign (asks now) p = provider_token-IsApart sign now p
token_call-IsApart sign (had_refused token now) p = refresh-IsApart sign token now p

-- A sequence of steps each of which keeps tokens apart does so.
IsApart-then :
    (p : ProviderToken) (cache : Option ProviderToken)
    (f : Option ProviderToken → Option ProviderToken)
    → ((q : ProviderToken) → IsApart q (f (some q)))
    → IsApart p cache
    → IsApart p (f cache)
IsApart-then p cache f keeps (q, held, apart) =
    IsApart-trans p q (f cache) (q, refl, apart) (subst (λ o. IsApart q (f o)) (sym held) (keeps q))

token_calls-IsApart :
    (sign : ℕ → String) (calls : List TokenCall) (p : ProviderToken)
    → IsApart p (token_calls sign calls (some p))
unfolding token_calls
token_calls-IsApart sign [] p = (p, refl, inl refl)
token_calls-IsApart sign (c ∷ calls) p =
    IsApart-then p (token_call sign c (some p)) (token_calls sign calls)
      (token_calls-IsApart sign calls) (token_call-IsApart sign c p)

read_answer-IsApart :
    (client : ApnsClient) (token : String) (later : ℕ) (answer : ApnsAnswer) (p : ProviderToken)
    → IsApart p (read_answer client token later (some p) answer).1
unfolding read_answer after_rejection
read_answer-IsApart client token later http_error p = (p, refl, inl refl)
read_answer-IsApart client token later (answered status apns_id reason after invalidated_at) p =
    if-split (λ (r : ApnsResult × Option ProviderToken). IsApart p r.1) (status == 200)
      (λ _. (p, refl, inl refl))
      (λ _.
        if-split (λ (r : Bool × Option ProviderToken). IsApart p r.1)
          (str_eq (clipped_reason reason) "ExpiredProviderToken")
          (λ _. refresh-IsApart client.sign token later p) (λ _. (p, refl, inl refl)))

-- Sending keeps the cached provider token or replaces it by one that is signed twenty minutes later or
-- more, whatever the clock says, whatever Apple answers, and whatever other sends ask of the sender while
-- the request is on its way.
pub send-IsApart :
    (client : ApnsClient) (now later : ℕ) (calls : List TokenCall) (p : ProviderToken)
    (delivery : ClaimedDelivery)
    → IsApart p (send client now later calls (some p) delivery).1
unfolding send
send-IsApart client now later calls p delivery =
    let q = provider_token client.sign false now (some p) in
    if-split (λ (r : ApnsResult × Option ProviderToken). IsApart p r.1)
      (ltb 4096 (client.encoded_size delivery)) (λ _. (p, refl, inl refl))
      (λ _.
        IsApart-then p (token_calls client.sign calls (some q))
          (λ cache. (read_answer client q.encoded later cache (client.post q.encoded delivery)).1)
          (read_answer-IsApart client q.encoded later (client.post q.encoded delivery))
          (IsApart-then p (some q) (token_calls client.sign calls)
            (token_calls-IsApart client.sign calls) (provider_token-IsApart client.sign now p)))
