-- ===== src/Push/Sender.antt =====
-- app/services/push.py: the cache of provider tokens of `APNsSender`, and how `send` reads Apple's answer.
-- The signature of a token, the encoding of a payload, the request and the reading of a number in a text
-- are parameters.
use fofu_backend.Base.{
  ℕ, ◌+◌, ◌*◌, min, Time, ◌&&◌, ◌||◌, not, String, Bool, true, false, Option, none, some, List, [],
  ◌∷◌, str_eq, ltb, leb, ◌==◌, any, if◌then◌else◌,
}
use fofu_backend.Utils.Text.{clip}
use fofu_backend.Utils.Locale.{is_blank}
use fofu_backend.Push.Rows.{second}
use fofu_backend.Push.Claim.{ClaimedDelivery}
use fofu_backend.Push.Finish.{ApnsResult}

-- `_cached_provider_token`: the token, and the second when it was signed.
pub record ProviderToken : Type 0 where
  pub encoded : String
  pub signed_at : ℕ

abbrev pub minutes : ℕ → ℕ
minutes n = n * 60

-- `jwt.encode` at a time
abbrev pub signed : (ℕ → String) → ℕ → ProviderToken
signed sign now = record { encoded = sign now; signed_at = now }

-- The cached token is used for 45 minutes.
abbrev pub is_usable : ℕ → ProviderToken → Bool
is_usable now p = ltb now (p.signed_at + minutes 45)

unfoldable pub provider_token : (ℕ → String) → Bool → ℕ → Option ProviderToken → ProviderToken
provider_token sign force now none = signed sign now
provider_token sign force now (some p) = if not force && is_usable now p then p else signed sign now

-- Whether there is another token than the rejected one, and the cache.
unfoldable pub refresh_rejected_provider_token :
    (ℕ → String) → String → ℕ → Option ProviderToken → Bool × Option ProviderToken
refresh_rejected_provider_token sign rejected now none = (false, none)
refresh_rejected_provider_token sign rejected now (some p) =
    if not (str_eq p.encoded rejected)
    then (true, some p)
    else if ltb now (p.signed_at + minutes 20)
    then (false, some p)
    else (true, some (signed sign now))

-- Another send asks for the token, or has had a token refused, each at the second of its reading of the
-- clock; the lock makes a call one step.
pub data TokenCall : Type 0 where
  asks : ℕ → TokenCall
  had_refused : String → ℕ → TokenCall

unfoldable pub token_call : (ℕ → String) → TokenCall → Option ProviderToken → Option ProviderToken
unfolding provider_token refresh_rejected_provider_token
token_call sign (asks now) cache = some (provider_token sign false now cache)
token_call sign (had_refused token now) cache =
    (refresh_rejected_provider_token sign token now cache).1

unfoldable pub token_calls :
    (ℕ → String) → List TokenCall → Option ProviderToken → Option ProviderToken
unfolding token_call
token_calls sign [] cache = cache
token_calls sign (c ∷ calls) cache = token_calls sign calls (token_call sign c cache)

-- What comes of the request: `reason` is that of the body, where it is a text there.
pub data ApnsAnswer : Type 0 where
  http_error : ApnsAnswer
  answered : ℕ → Option String → Option String → Option String → Option Time → ApnsAnswer

abbrev pub one_of_reasons : List String → String → Bool
one_of_reasons reasons reason = any (str_eq reason) reasons

abbrev pub invalid_device_reasons : List String
invalid_device_reasons =
    "BadDeviceToken" ∷ "DeviceTokenNotForTopic" ∷ "ExpiredToken" ∷ "Unregistered" ∷ []

abbrev pub retryable_apns_reasons : List String
retryable_apns_reasons =
    "ExpiredProviderToken" ∷ "InternalServerError" ∷ "ServiceUnavailable" ∷ "Shutdown"
    ∷ "TooManyProviderTokenUpdates" ∷ "TooManyRequests" ∷ []

-- `_retry_after_seconds`; `read_seconds` gives microseconds, and zero for a number below zero.
unfoldable pub retry_after_seconds : (String → Option ℕ) → Option String → Option ℕ
retry_after_seconds read_seconds none = none
retry_after_seconds read_seconds (some value) =
    if is_blank value
    then none
    else elim (read_seconds value) [ none ↦ none | some n ↦ some (min n (3600 * second)) ]

abbrev pub is_server_error : ℕ → Bool
is_server_error status = leb 500 status && ltb status 600

-- `retry_after`, where `refreshed` is `provider_token_refreshed`
unfoldable pub retry_after : ℕ → String → Bool → Option ℕ → Option ℕ
retry_after status reason refreshed (some n) = some n
retry_after status reason refreshed none =
    if is_server_error status
    then some (minutes 15 * second)
    else if str_eq reason "TooManyProviderTokenUpdates"
    then some (minutes 20 * second)
    else if str_eq reason "ExpiredProviderToken" && not refreshed
    then some (minutes 20 * second)
    else none

abbrev pub failure : Bool → String → ApnsResult
failure retryable reason = record {
  succeeded = false;
  retryable = retryable;
  invalidate_device = false;
  reason = some reason;
  apns_id = none;
  retry_after_seconds = none;
  token_invalidated_at = none;
}

-- The result of an answer that is no success.
unfoldable pub rejection : ℕ → Option String → String → Bool → Option ℕ → Option Time → ApnsResult
unfolding retry_after
rejection status apns_id reason refreshed after invalidated_at = record {
  succeeded = false;
  retryable =
      status == 429 || (is_server_error status || one_of_reasons retryable_apns_reasons reason);
  invalidate_device = one_of_reasons invalid_device_reasons reason;
  reason = some reason;
  apns_id = apns_id;
  retry_after_seconds = retry_after status reason refreshed after;
  token_invalidated_at = invalidated_at;
}

abbrev pub success : Option String → ApnsResult
success apns_id = record {
  succeeded = true;
  retryable = false;
  invalidate_device = false;
  reason = none;
  apns_id = apns_id;
  retry_after_seconds = none;
  token_invalidated_at = none;
}

-- What `send` is given from outside.
pub record ApnsClient : Type 0 where
  pub sign : ℕ → String
  pub encoded_size : ClaimedDelivery → ℕ
  pub post : String → ClaimedDelivery → ApnsAnswer
  pub read_seconds : String → Option ℕ

-- Whether there is another token than the one that was used, and what the cache is after it.
unfoldable pub after_rejection :
    (ℕ → String) → String → String → ℕ → Option ProviderToken → Bool × Option ProviderToken
unfolding refresh_rejected_provider_token
after_rejection sign reason token now cache =
    if str_eq reason "ExpiredProviderToken"
    then refresh_rejected_provider_token sign token now cache
    else (false, cache)

unfoldable pub clipped_reason : Option String → String
unfolding clip
clipped_reason none = "UnknownAPNsError"
clipped_reason (some reason) = clip 100 reason

-- `cache` is what the cache holds when the answer comes, and `token` the one that the request had.
unfoldable pub read_answer :
    ApnsClient → String → ℕ → Option ProviderToken → ApnsAnswer → ApnsResult × Option ProviderToken
unfolding rejection after_rejection retry_after_seconds clipped_reason
read_answer client token later cache http_error = (failure true "NetworkError", cache)
read_answer client token later cache (answered status apns_id reason after invalidated_at) =
    let text = clipped_reason reason in
    let rejected = after_rejection client.sign text token later cache in
    if status == 200 then (success apns_id, cache) else (
      rejection status apns_id text rejected.0 (retry_after_seconds client.read_seconds after)
          invalidated_at,
      rejected.1,
    )

-- `APNsSender.send` at the second `now`, with the clock at `later` after the answer; `calls` are those
-- that other sends make of the same sender while the request is on its way.
unfoldable pub send :
    ApnsClient
    → ℕ
    → ℕ
    → List TokenCall
    → Option ProviderToken
    → ClaimedDelivery
    → ApnsResult × Option ProviderToken
unfolding provider_token read_answer token_calls
send client now later calls cache delivery =
    let p = provider_token client.sign false now cache in
    if ltb 4096 (client.encoded_size delivery)
    then (failure false "PayloadTooLarge", cache)
    else read_answer client p.encoded later (token_calls client.sign calls (some p))
        (client.post p.encoded delivery)
