-- ===== src/Push/Claim.antt =====
-- app/services/push.py: `claim_push_deliveries` and `_claim_is_current`.
use fofu_backend.Base.{
  ℕ, ◌+◌, ◌*◌, Uuid, Time, ◌&&◌, ◌||◌, not, String, Bool, false, Option, none, some, List, [], ◌∷◌,
  ◌==◌, str_eq, ltb, leb, update_where, take, if◌then◌else◌,
}
use fofu_backend.Push.Rows.{
  Db, PushDevice, PushDelivery, processing, failed, is_pending, is_processing, Payload, Settings,
  same_environment, platform_ios, is_bundle, has_live_binding, second, device_by_id, delivery_by_id,
}
use fofu_backend.Push.Cancel.{cancel_expired_session_deliveries}

pub record ClaimedDelivery : Type 0 where
  pub id : Uuid
  pub lease_id : Uuid
  pub device_id : Uuid
  pub recipient_user_id : Uuid
  pub token : String
  pub title : String
  pub body : String
  pub payload : Payload
  pub attempt_count : ℕ
  pub device_registered_at : Time

-- A comparison with NULL is not true.
abbrev pub is_due : Time → Option Time → Bool
is_due now none = false
is_due now (some t) = leb t now

-- Out of attempts, and not in the hands of a worker whose lease still runs.
abbrev pub is_exhausted : ℕ → Time → PushDelivery → Bool
is_exhausted attempts now q =
    (is_pending q.status && leb attempts q.attempt_count)
    || (is_processing q.status && (leb attempts q.attempt_count && is_due now q.lease_expires_at))

abbrev pub exhaust : Time → PushDelivery → PushDelivery
exhaust now q = record q {
  status = failed;
  lease_id = none;
  lease_expires_at = none;
  last_error_code = some "max_attempts_exceeded";
  updated_at = now;
}

-- The second statement of `claim_push_deliveries`.
unfoldable pub fail_exhausted : ℕ → Time → Db → Db
fail_exhausted attempts now db = record db {
  deliveries = update_where (is_exhausted attempts now) (exhaust now) db.deliveries;
}

-- Pending and available, or in the hands of a worker whose lease has run out.
abbrev pub is_available : ℕ → Time → PushDelivery → Bool
is_available attempts now q =
    ((is_pending q.status && leb q.available_at now)
      || (is_processing q.status && is_due now q.lease_expires_at))
    && ltb q.attempt_count attempts

-- The conditions on the delivery's device, its session and its user.
unfoldable pub is_deliverable : Settings → Db → Time → PushDelivery → PushDevice → Bool
unfolding has_live_binding
is_deliverable settings db now q d =
    q.recipient_user_id == d.user_id
    && (d.is_active
        && (str_eq d.platform platform_ios
            && (is_bundle settings.apns_bundle_id d.topic
                && (same_environment d.environment settings.apns_environment
                    && has_live_binding db now d))))

-- The row of the join for one delivery. Rows that another transaction has `locked` are skipped:
-- SKIP LOCKED on PostgreSQL, and no row on SQLite.
unfoldable pub due_row :
    Settings
    → Db
    → Time
    → (Uuid → Bool)
    → PushDelivery
    → Option PushDevice
    → List (PushDelivery × PushDevice)
due_row settings db now locked q none = []
due_row settings db now locked q (some d) =
    if is_available settings.push_delivery_max_attempts now q
      && (is_deliverable settings db now q d && not (locked q.id))
    then (q, d) ∷ []
    else []

-- `order_by(available_at, created_at)`
abbrev pub comes_first : PushDelivery → PushDelivery → Bool
comes_first a b =
    ltb a.available_at b.available_at
    || (a.available_at == b.available_at && leb a.created_at b.created_at)

unfoldable pub insert_row :
    PushDelivery × PushDevice → List (PushDelivery × PushDevice) → List (PushDelivery × PushDevice)
insert_row r [] = r ∷ []
insert_row r (s ∷ rows) =
    let rest = insert_row r rows in if comes_first r.0 s.0 then r ∷ s ∷ rows else s ∷ rest

unfoldable pub insert_rows :
    List (PushDelivery × PushDevice)
    → List (PushDelivery × PushDevice)
    → List (PushDelivery × PushDevice)
unfolding insert_row
insert_rows [] rows = rows
insert_rows (r ∷ rs) rows = insert_row r (insert_rows rs rows)

-- The join in the order of the query.
unfoldable pub due_rows :
    Settings → Db → Time → (Uuid → Bool) → List PushDelivery → List (PushDelivery × PushDevice)
unfolding due_row insert_rows device_by_id is_deliverable
due_rows settings db now locked [] = []
due_rows settings db now locked (q ∷ qs) =
    insert_rows (due_row settings db now locked q (device_by_id db q.device_id))
      (due_rows settings db now locked qs)

-- The assignments to a delivery that is claimed; `later` is the clock when they are written.
abbrev pub lease : Uuid → Time → Time → PushDelivery → PushDelivery
lease lease_id lease_until later q = record q {
  status = processing;
  attempt_count = q.attempt_count + 1;
  lease_id = some lease_id;
  lease_expires_at = some lease_until;
  updated_at = later;
}

abbrev pub claim_of : Uuid → PushDelivery → PushDevice → ClaimedDelivery
claim_of lease_id q d = record {
  id = q.id;
  lease_id = lease_id;
  device_id = d.id;
  recipient_user_id = q.recipient_user_id;
  token = d.device_token;
  title = q.title;
  body = q.body;
  payload = q.payload;
  attempt_count = q.attempt_count + 1;
  device_registered_at = d.last_registered_at;
}

-- The loop over the rows; `new_id n` is the n-th lease id.
unfoldable pub lease_rows :
    (ℕ → Uuid)
    → ℕ
    → Time
    → Time
    → List (PushDelivery × PushDevice)
    → List PushDelivery
    → List PushDelivery
lease_rows new_id n lease_until later [] deliveries = deliveries
lease_rows new_id n lease_until later ((q, d) ∷ rows) deliveries =
    lease_rows new_id (n + 1) lease_until later rows (
      update_where (λ (p : PushDelivery). p.id == q.id) (lease (new_id n) lease_until later)
        deliveries)

unfoldable pub claims_of : (ℕ → Uuid) → ℕ → List (PushDelivery × PushDevice) → List ClaimedDelivery
claims_of new_id n [] = []
claims_of new_id n ((q, d) ∷ rows) = claim_of (new_id n) q d ∷ claims_of new_id (n + 1) rows

-- The tables when the rows are selected.
unfoldable pub before_claim : Settings → Time → Db → Db
unfolding cancel_expired_session_deliveries fail_exhausted
before_claim settings now db =
    fail_exhausted settings.push_delivery_max_attempts now
      (cancel_expired_session_deliveries now db)

unfoldable pub claimed_rows :
    Settings → Time → (Uuid → Bool) → Db → List (PushDelivery × PushDevice)
unfolding due_rows
claimed_rows settings now locked db =
    take settings.push_worker_batch_size (due_rows settings db now locked db.deliveries)

-- `claim_push_deliveries`
unfoldable pub claim_push_deliveries :
    Settings → Time → Time → (Uuid → Bool) → (ℕ → Uuid) → Db → Db × List ClaimedDelivery
unfolding before_claim claimed_rows lease_rows claims_of
claim_push_deliveries settings now later locked new_id db =
    let db' = before_claim settings now db in
    let rows = claimed_rows settings now locked db' in
    let lease_until = now + settings.push_delivery_lease_seconds * second in
    (
      record db' { deliveries = lease_rows new_id 0 lease_until later rows db'.deliveries },
      claims_of new_id 0 rows,
    )

-- `==` where the column may be NULL
abbrev pub is_lease : Uuid → Option Uuid → Bool
is_lease i none = false
is_lease i (some j) = j == i

unfoldable pub is_current_row :
    Db → Time → ClaimedDelivery → PushDelivery → Option PushDevice → Bool
unfolding has_live_binding
is_current_row db clock c q none = false
is_current_row db clock c q (some d) =
    is_processing q.status
    && (is_lease c.lease_id q.lease_id
        && (q.recipient_user_id == d.user_id
            && (d.user_id == c.recipient_user_id
                && (d.id == c.device_id
                    && (str_eq d.device_token c.token
                        && (d.is_active && has_live_binding db clock d))))))

-- `_claim_is_current`; `clock` is its reading of the time
unfoldable pub claim_is_current : Db → Time → ClaimedDelivery → Bool
unfolding is_current_row device_by_id delivery_by_id
claim_is_current db clock c = elim (delivery_by_id db c.id) [
  | none ↦ false
  | some q ↦ is_current_row db clock c q (device_by_id db q.device_id)
]
