-- ===== src/Push/Enqueue.antt =====
-- app/services/push.py: `enqueue_message_notifications`, and what it adds to the outbox.
use Prim.Native.Char.{code}
use fofu_backend.Base.{
  ℕ, ◌+◌, Uuid, Time, ◌&&◌, ◌||◌, not, String, Bool, false, Option, none, some, List, [], ◌∷◌, ◌++◌,
  ◌==◌, str_eq, is_none, select, any, length, if◌then◌else◌,
}
use fofu_backend.Push.Rows.{
  Db, PushDevice, PushDelivery, ConversationParticipant, pending, Settings, same_environment,
  platform_ios, is_bundle, has_live_binding,
}

pub data MessageKind : Type 0 where
  text image document : MessageKind

-- app/models.py: `Message`
pub record Message : Type 0 where
  pub id : Uuid
  pub conversation_id : Uuid
  pub sender_user_id : Uuid
  pub body : String
  pub client_message_id : Option String
  pub kind : MessageKind
  pub media_asset_id : Option Uuid
  pub created_at : Time
  pub edited_at : Option Time
  pub deleted_at : Option Time

-- `casefold` takes these characters, and no others, to k and to o.
is_k : ℕ → Bool
is_k c = c == b'k' || (c == b'K' || c == 0x212a)

is_o : ℕ → Bool
is_o c = c == b'o' || c == b'O'

is_korean : String → Bool
unfolding is_k is_o
is_korean String.[] = false
is_korean (String.◌∷◌ a String.[]) = false
is_korean (String.◌∷◌ a (String.◌∷◌ b s)) = is_k (code a) && is_o (code b)

-- `_generic_message_notification_body`
unfoldable pub generic_body : Option String → String
unfolding is_korean
generic_body none = "You have a new message."
generic_body (some locale) =
    if is_korean locale then "새 메시지가 도착했습니다." else "You have a new message."

-- The join of devices and participants has a device once: a user takes part in a conversation once.
unfoldable pub takes_part : Db → Uuid → Uuid → Bool
takes_part db conversation_id user_id =
    any
      (λ (p : ConversationParticipant).
        p.conversation_id == conversation_id && p.user_id == user_id)
      db.participants

-- The conditions of the query.
unfoldable pub is_notified : Settings → Db → Message → Time → PushDevice → Bool
unfolding takes_part has_live_binding
is_notified settings db message now d =
    takes_part db message.conversation_id d.user_id
    && (not (d.user_id == message.sender_user_id)
        && (d.is_active
            && (str_eq d.platform platform_ios
                && (is_bundle settings.apns_bundle_id d.topic
                    && (same_environment d.environment settings.apns_environment
                        && has_live_binding db now d)))))

abbrev pub new_delivery : Message → Time → Uuid → PushDevice → PushDelivery
new_delivery message now id d = record {
  id = id;
  event_key = message.id;
  device_id = d.id;
  recipient_user_id = d.user_id;
  notification_type = "message";
  title = "FOFU";
  body = generic_body d.locale;
  payload = record {
    fofu_type = "message";
    conversation_id = message.conversation_id;
    message_id = message.id;
  };
  status = pending;
  attempt_count = 0;
  available_at = now;
  lease_id = none;
  lease_expires_at = none;
  apns_id = none;
  last_error_code = none;
  sent_at = none;
  created_at = now;
  updated_at = now;
}

-- The loop over the devices; `new_id n` is the id of the row that is made `n`-th.
unfoldable pub new_deliveries :
    Message → Time → (ℕ → Uuid) → ℕ → List PushDevice → List PushDelivery
new_deliveries message now new_id n [] = []
new_deliveries message now new_id n (d ∷ ds) =
    new_delivery message now (new_id n) d ∷ new_deliveries message now new_id (n + 1) ds

-- `enqueue_message_notifications`, in the transaction of its caller
unfoldable pub enqueue_message_notifications : Settings → Message → Time → (ℕ → Uuid) → Db → Db × ℕ
unfolding is_notified new_deliveries
enqueue_message_notifications settings message now new_id db =
    let devices = select (is_notified settings db message now) db.devices in
    if not settings.apns_enabled || is_none settings.apns_bundle_id then (db, 0) else (
      record db { deliveries = db.deliveries ++ new_deliveries message now new_id 0 devices },
      length devices,
    )
