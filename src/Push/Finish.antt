-- ===== src/Push/Finish.antt =====
-- app/services/push.py: `_finish_delivery`, `dispatch_claimed_delivery` and the purge.
use fofu_backend.Base.{
  ℕ, ◌+◌, ◌*◌, ◌/◌, ◌%◌, ◌^◌, min, Uuid, Time, ◌&&◌, ◌||◌, not, String, Bool, true, false, Option,
  none, some, List, [], ◌∷◌, map, ◌==◌, str_eq, ltb, leb, select, update_where, delete_where, take,
  or_else, length, is_empty, if◌then◌else◌,
}
use fofu_backend.Push.Rows.{
  Db, PushDevice, PushDelivery, DeliveryStatus, pending, sent, failed, is_processing, is_terminal,
  Settings, second, day, member, device_by_id, delivery_by_id,
}
use fofu_backend.Push.Cancel.{invalidate, cancel_device_deliveries}
use fofu_backend.Push.Claim.{ClaimedDelivery, is_lease, claim_is_current}

-- A number of seconds is in microseconds.
pub record ApnsResult : Type 0 where
  pub succeeded : Bool
  pub retryable : Bool
  pub invalidate_device : Bool
  pub reason : Option String
  pub apns_id : Option String
  pub retry_after_seconds : Option ℕ
  pub token_invalidated_at : Option Time

-- `int(delivery.id.replace("-", "")[:8], 16) % 1000`: the first 32 of the 128 bits
abbrev pub jitter : Uuid → ℕ
jitter id = id / 2 ^ 96 % 1000

-- `_retry_delay_seconds`: base * (1 + jitter / 1000 * 0.25) seconds is base * (4000 + jitter) * 250
-- microseconds.
unfoldable pub retry_delay_seconds : ClaimedDelivery → ApnsResult → ℕ
retry_delay_seconds c result = elim result.retry_after_seconds [
  | some delay ↦ delay
  | none ↦ min (min (2 ^ min c.attempt_count 10) 1800 * (4000 + jitter c.id) * 250) (3600 * second)
]

-- The status that a result gives to the delivery, and when a pending one is available again.
unfoldable pub finished_status : Settings → ApnsResult → ℕ → DeliveryStatus
finished_status settings result attempts =
    if result.succeeded
    then sent
    else if result.invalidate_device
    then failed
    else if result.retryable && ltb attempts settings.push_delivery_max_attempts
    then pending
    else failed

abbrev pub is_retried : DeliveryStatus → Bool
is_retried pending = true
is_retried _ = false

-- The assignments to `queued`.
unfoldable pub finish :
    Settings → ClaimedDelivery → ApnsResult → Time → Time → PushDelivery → PushDelivery
unfolding finished_status retry_delay_seconds
finish settings c result now later q = record q {
  apns_id = result.apns_id;
  last_error_code = result.reason;
  lease_id = none;
  lease_expires_at = none;
  status = finished_status settings result q.attempt_count;
  sent_at = if result.succeeded then some now else q.sent_at;
  available_at =
      if is_retried (finished_status settings result q.attempt_count)
      then now + retry_delay_seconds c result
      else q.available_at;
  updated_at = later;
}

-- `same_token_binding and invalidation_covers_registration`
unfoldable pub covers_device : ClaimedDelivery → ApnsResult → PushDevice → Bool
covers_device c result d =
    str_eq d.device_token c.token
    && (d.user_id == c.recipient_user_id
        && leb d.last_registered_at (or_else result.token_invalidated_at c.device_registered_at))

-- `result.reason or "invalid_device_token"`: the empty text counts as missing
abbrev reason_of : Option String → String
reason_of none = "invalid_device_token"
reason_of (some r) = if str_eq r "" then "invalid_device_token" else r

-- The branch on `result.invalidate_device`, for the device that the delivery was claimed for.
unfoldable pub drop_device :
    ClaimedDelivery → ApnsResult → Time → Time → Option PushDevice → Db → Db
unfolding covers_device cancel_device_deliveries
drop_device c result now later none db = db
drop_device c result now later (some d) db =
    let reason = reason_of result.reason in
    if covers_device c result d
    then cancel_device_deliveries d.id reason (some c.id) later (record db {
      devices =
          update_where (λ (e : PushDevice). e.id == d.id)
            (λ e. record (invalidate reason now e) { updated_at = later }) db.devices;
    })
    else db

-- The delivery is still leased to this claim.
abbrev pub holds_lease : ClaimedDelivery → PushDelivery → Bool
holds_lease c q = is_processing q.status && is_lease c.lease_id q.lease_id

unfoldable pub finish_queued :
    Settings → ClaimedDelivery → ApnsResult → Time → Time → Option PushDelivery → Db → Db
unfolding finish drop_device device_by_id
finish_queued settings c result now later none db = db
finish_queued settings c result now later (some q) db =
    let db' = record db {
      deliveries =
          update_where (λ (p : PushDelivery). p.id == c.id) (finish settings c result now later)
            db.deliveries;
    } in
    if not (holds_lease c q)
    then db
    else if not result.succeeded && result.invalidate_device
    then drop_device c result now later (device_by_id db c.device_id) db'
    else db'

-- `_finish_delivery`
unfoldable pub finish_delivery : Settings → ClaimedDelivery → ApnsResult → Time → Time → Db → Db
unfolding finish_queued delivery_by_id
finish_delivery settings c result now later db =
    finish_queued settings c result now later (delivery_by_id db c.id) db

abbrev pub binding_changed : ApnsResult
binding_changed = record {
  succeeded = false;
  retryable = false;
  invalidate_device = false;
  reason = some "device_binding_changed";
  apns_id = none;
  retry_after_seconds = none;
  token_invalidated_at = none;
}

-- `dispatch_claimed_delivery`: the claim is checked on the tables `checked` at the time `clock`, in
-- a transaction of its own, and finished on `db`, which others may have changed during the sending.
unfoldable pub dispatch_claimed_delivery :
    Settings → (ClaimedDelivery → ApnsResult) → ClaimedDelivery → Db → Time → Time → Time → Db → Db
unfolding finish_delivery claim_is_current
dispatch_claimed_delivery settings send c checked clock now later db =
    if not (claim_is_current checked clock c)
    then finish_delivery settings c binding_changed now later db
    else finish_delivery settings c (send c) now later db

-- Terminal, and not changed since the cutoff `now - retention`.
abbrev pub is_purgeable : Settings → Time → PushDelivery → Bool
is_purgeable settings now q =
    is_terminal q.status && ltb (q.updated_at + settings.push_delivery_retention_days * day) now

-- `order_by(updated_at, id)`
abbrev pub is_older : PushDelivery → PushDelivery → Bool
is_older a b = ltb a.updated_at b.updated_at || (a.updated_at == b.updated_at && leb a.id b.id)

unfoldable pub insert_older : PushDelivery → List PushDelivery → List PushDelivery
insert_older q [] = q ∷ []
insert_older q (p ∷ ps) =
    let rest = insert_older q ps in if is_older q p then q ∷ p ∷ ps else p ∷ rest

unfoldable pub oldest_first : List PushDelivery → List PushDelivery
unfolding insert_older
oldest_first [] = []
oldest_first (q ∷ qs) = insert_older q (oldest_first qs)

unfoldable pub purged_ids : Settings → Time → ℕ → Db → List Uuid
unfolding oldest_first
purged_ids settings now batch_size db =
    map (λ q. q.id)
      (take batch_size (oldest_first (select (is_purgeable settings now) db.deliveries)))

-- `purge_terminal_push_deliveries`: the tables and the number of rows that it deleted
unfoldable pub purge_terminal_push_deliveries : Settings → Time → ℕ → Db → Db × ℕ
unfolding purged_ids
purge_terminal_push_deliveries settings now batch_size db =
    if is_empty (purged_ids settings now batch_size db) then (db, 0) else (
      record db {
        deliveries =
            delete_where (λ q. member q.id (purged_ids settings now batch_size db)) db.deliveries;
      },
      length (purged_ids settings now batch_size db),
    )
