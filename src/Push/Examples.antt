-- ===== src/Push/Examples.antt =====
-- The outbox of app/services/push.py at a concrete state: one device of one user, with a delivery
-- that has been sent and one that waits.
use fofu_backend.Base.{
  ℕ, ◌++◌, ◌+◌, ◌*◌, ◌≤◌, ◌^◌, min, Uuid, ◌≡◌, ◌⊎◌, refl, true, false, ◌&&◌, none, some, List, [],
  ◌∷◌, arith, length, All, find, update_where, any, select,
}
use fofu_backend.Push.Rows.{
  Db, ios, full, PushDevice, PushDelivery, Settings, sandbox, pending, sent, second, delivery_by_id,
  member, is_cancelable,
}
use fofu_backend.Push.Cancel.{bound_devices, is_bound, deactivate_session_devices}
use fofu_backend.Push.Claim.{ClaimedDelivery, claim_push_deliveries, claim_is_current}
use fofu_backend.Push.Finish.{ApnsResult, finish_delivery, retry_delay_seconds, jitter}
use fofu_backend.Push.Enqueue.{text, Message, enqueue_message_notifications}
use fofu_backend.Push.Notify.{IsDueTo, enqueue_message_notifications-IsDueTo}
use fofu_backend.Push.Valid.{IsValid}
use fofu_backend.Push.Claims.{claim-current}
use fofu_backend.Push.Steps.{here, next, claim, finish, Reach-IsValid}
use fofu_backend.Push.Lease.{finish_delivery-once, finish-reclaimed}
use fofu_backend.Push.Immutable.{Step-terminal}
use fofu_backend.Push.Delay.{retry_delay_bounds}
use fofu_backend.Push.Sender.{
  ProviderToken, TokenCall, asks, had_refused, ApnsClient, answered, send,
}
use fofu_backend.Push.Signing.{IsApart, send-IsApart}
use fofu_backend.Push.Retire.{deactivate_complete}

abbrev settings : Settings
settings = record {
  apns_enabled = true;
  apns_bundle_id = some "com.fofu.app";
  apns_environment = sandbox;
  push_max_active_devices_per_user = 10;
  push_delivery_lease_seconds = 60;
  push_delivery_max_attempts = 8;
  push_delivery_retention_days = 7;
  push_worker_batch_size = 10;
}

abbrev phone : PushDevice
phone = record {
  id = 3;
  user_id = 1;
  auth_session_id = 2;
  installation_id = "phone";
  device_token = "ab";
  platform = "ios";
  topic = "com.fofu.app";
  environment = sandbox;
  locale = some "ko";
  is_active = true;
  invalidated_reason = none;
  invalidated_at = none;
  last_registered_at = 0;
  updated_at = 0;
}

abbrev waiting : PushDelivery
waiting = record {
  id = 5;
  event_key = 9;
  device_id = 3;
  recipient_user_id = 1;
  notification_type = "message";
  title = "FOFU";
  body = "text";
  payload = record { fofu_type = "message"; conversation_id = 8; message_id = 9 };
  status = pending;
  attempt_count = 0;
  available_at = 0;
  lease_id = none;
  lease_expires_at = none;
  apns_id = none;
  last_error_code = none;
  sent_at = none;
  created_at = 0;
  updated_at = 0;
}

abbrev done : PushDelivery
done = record waiting { id = 4; event_key = 7; status = sent; attempt_count = 1; sent_at = some 0 }

abbrev tables : Db
tables = record {
  users =
      record {
        id = 1;
        email = some "a@fofu.app";
        password_hash = none;
        display_name = "A";
        home_country_code = none;
        locale = "ko";
        is_guest = false;
        is_active = true;
        roles = [];
      }
      ∷ [];
  sessions =
      record {
        id = 2;
        user_id = 1;
        refresh_token_hash = "h";
        client_type = ios;
        device_id = none;
        scope = full;
        is_guest_at_issue = false;
        qr_restaurant_id = none;
        expires_at = 10 ^ 12;
        created_at = 0;
        last_used_at = 0;
        revoked_at = none;
      }
      ∷ [];
  participants =
      record { conversation_id = 8; user_id = 1; last_read_at = none; joined_at = 0 } ∷ [];
  devices = phone ∷ [];
  deliveries = done ∷ waiting ∷ [];
}

tables-IsValid : IsValid 8 tables
tables-IsValid = record {
  deliveries = (
    (
      record { leased = refl; timed = refl; delivered = refl; bounded = omega arith },
      (record { leased = refl; timed = refl; delivered = refl; bounded = omega arith }, tt),
    ),
    ((refl, tt), (tt, tt)),
  );
}

abbrev now : ℕ
now = 1000

abbrev new_id : ℕ → Uuid
new_id n = 100 + n

-- The claim of the delivery that waits.
abbrev claimed : ClaimedDelivery
claimed = record {
  id = 5;
  lease_id = 100;
  device_id = 3;
  recipient_user_id = 1;
  token = "ab";
  title = "FOFU";
  body = "text";
  payload = waiting.payload;
  attempt_count = 1;
  device_registered_at = 0;
}

abbrev refused : ApnsResult
refused = record {
  succeeded = false;
  retryable = true;
  invalidate_device = false;
  reason = some "timeout";
  apns_id = none;
  retry_after_seconds = none;
  token_invalidated_at = none;
}

abbrev leased : Db
leased = (claim_push_deliveries settings now now (λ i. false) new_id tables).0

claims : (claim_push_deliveries settings now now (λ i. false) new_id tables).1 ≡ claimed ∷ []
unfolding claim_push_deliveries update_where find any select
claims = refl

Reach-IsValid_example :
    IsValid settings.push_delivery_max_attempts
      (finish_delivery settings claimed refused now now leased)
Reach-IsValid_example = Reach-IsValid {s = tables} tables-IsValid (
    next (next here (claim now now (λ i. false) new_id tables))
      (finish claimed refused now now leased))

claim-current_example :
    All
      (λ c. claim_is_current leased now c ≡ true)
      (claim_push_deliveries settings now now (λ i. false) new_id tables).1
    × All
        (λ c. (1 ≤ c.attempt_count) × (c.attempt_count ≤ settings.push_delivery_max_attempts))
        (claim_push_deliveries settings now now (λ i. false) new_id tables).1
    × (length (claim_push_deliveries settings now now (λ i. false) new_id tables).1
        ≤ settings.push_worker_batch_size)
claim-current_example = claim-current settings now now (λ i. false) new_id tables tables-IsValid

finish_delivery-once_example :
    finish_delivery settings claimed refused 3000 3000
      (finish_delivery settings claimed refused 2000 2000 leased)
    ≡ finish_delivery settings claimed refused 2000 2000 leased
finish_delivery-once_example =
    finish_delivery-once settings claimed refused refused 2000 2000 3000 3000 leased

finish-reclaimed_example :
    finish_delivery settings (record claimed { lease_id = 99 }) refused 2000 2000 leased ≡ leased
unfolding find update_where any select
finish-reclaimed_example =
    finish-reclaimed settings claimed (record claimed { lease_id = 99 }) refused now 2000 2000
      leased current refl (omega arith)
  where
    current : claim_is_current leased now claimed ≡ true
    current = unfold claim_is_current claim_push_deliveries in refl

Step-terminal_example : (delivery_by_id leased 4 ≡ none) ⊎ (delivery_by_id leased 4 ≡ some done)
unfolding find
Step-terminal_example =
    Step-terminal {settings = settings} done (claim now now (λ i. false) new_id tables)
      tables-IsValid refl (unfold delivery_by_id in refl)

retry_delay_bounds_example :
    (retry_delay_seconds claimed refused ≡ 2 ^ min 1 10 * (4000 + jitter 5) * 250)
    × (2 * second ≤ retry_delay_seconds claimed refused)
    × (retry_delay_seconds claimed refused ≤ 1280 * second)
retry_delay_bounds_example = retry_delay_bounds claimed refused (omega arith) refl

deactivate_complete_example :
    let (db', n) = deactivate_session_devices (some 2) none "logout" now tables in
    (n ≡ length (bound_devices (some 2) none tables))
    × All (λ d. is_bound (some 2) none d ≡ false) db'.devices
    × All
        (λ q.
          (is_cancelable q.status && member q.device_id (bound_devices (some 2) none tables))
          ≡ false)
        db'.deliveries
deactivate_complete_example = deactivate_complete (some 2) none "logout" now tables refl

abbrev greeting : Message
greeting = record {
  id = 9;
  conversation_id = 8;
  sender_user_id = 6;
  body = "hello";
  client_message_id = none;
  kind = text;
  media_asset_id = none;
  created_at = now;
  edited_at = none;
  deleted_at = none;
}

enqueue_message_notifications-IsDueTo_example :
    let (db', n) = enqueue_message_notifications settings greeting now new_id tables in
    (added : List PushDelivery) × (db'.deliveries ≡ tables.deliveries ++ added)
    × (length added ≡ n)
    × All (IsDueTo tables greeting now) added
enqueue_message_notifications-IsDueTo_example =
    enqueue_message_notifications-IsDueTo settings greeting now new_id tables

-- A client whose token Apple finds expired, while another send has had it refused before.
abbrev client : ApnsClient
client = record {
  sign = λ n. "new";
  encoded_size = λ delivery. 200;
  post = λ token delivery. answered 403 none (some "ExpiredProviderToken") none none;
  read_seconds = λ t. none;
}

abbrev old_token : ProviderToken
old_token = record { encoded = "old"; signed_at = 1000 }

abbrev other_sends : List TokenCall
other_sends = asks 3000 ∷ had_refused "old" 3000 ∷ []

send-IsApart_example :
    IsApart old_token (send client 3000 3001 other_sends (some old_token) claimed).1
send-IsApart_example = send-IsApart client 3000 3001 other_sends old_token claimed
