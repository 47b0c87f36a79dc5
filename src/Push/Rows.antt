-- ===== src/Push/Rows.antt =====
-- The tables that app/services/push.py and app/services/auth.py read and write (app/models.py), and
-- the settings of the first.
-- A uuid is a number, a time is in microseconds, and a status or environment string is a data type.
use fofu_backend.Base.{
  ℕ, Uuid, Time, ◌*◌, ◌&&◌, String, Bool, true, false, Option, none, some, List, ltb, ◌==◌, str_eq,
  is_none, find, any,
}

pub data Environment : Type 0 where
  sandbox production : Environment

abbrev pub same_environment : Environment → Environment → Bool
same_environment sandbox sandbox = true
same_environment production production = true
same_environment _ _ = false

pub record User : Type 0 where
  pub id : Uuid
  pub email : Option String
  pub password_hash : Option String
  pub display_name : String
  pub home_country_code : Option String
  pub locale : String
  pub is_guest : Bool
  pub is_active : Bool
  pub roles : List String

pub data ClientType : Type 0 where
  ios android web : ClientType

pub data Scope : Type 0 where
  full guest qr_guest admin : Scope

abbrev pub is_ios : ClientType → Bool
is_ios ios = true
is_ios _ = false

abbrev pub is_full : Scope → Bool
is_full full = true
is_full _ = false

pub record AuthSession : Type 0 where
  pub id : Uuid
  pub user_id : Uuid
  pub refresh_token_hash : String
  pub client_type : ClientType
  pub device_id : Option String
  pub scope : Scope
  pub is_guest_at_issue : Bool
  pub qr_restaurant_id : Option Uuid
  pub expires_at : Time
  pub created_at : Time
  pub last_used_at : Time
  pub revoked_at : Option Time

pub record PushDevice : Type 0 where
  pub id : Uuid
  pub user_id : Uuid
  pub auth_session_id : Uuid
  pub installation_id : String
  pub device_token : String
  pub platform : String
  pub topic : String
  pub environment : Environment
  pub locale : Option String
  pub is_active : Bool
  pub invalidated_reason : Option String
  pub invalidated_at : Option Time
  pub last_registered_at : Time
  pub updated_at : Time

pub data DeliveryStatus : Type 0 where
  pending processing sent failed cancelled : DeliveryStatus

-- The JSON object of a message notification.
pub record Payload : Type 0 where
  pub fofu_type : String
  pub conversation_id : Uuid
  pub message_id : Uuid

pub record PushDelivery : Type 0 where
  pub id : Uuid
  -- `message:{message.id}`: the id of the message
  pub event_key : Uuid
  pub device_id : Uuid
  pub recipient_user_id : Uuid
  pub notification_type : String
  pub title : String
  pub body : String
  pub payload : Payload
  pub status : DeliveryStatus
  pub attempt_count : ℕ
  pub available_at : Time
  pub lease_id : Option Uuid
  pub lease_expires_at : Option Time
  pub apns_id : Option String
  pub last_error_code : Option String
  pub sent_at : Option Time
  pub created_at : Time
  pub updated_at : Time

pub record ConversationParticipant : Type 0 where
  pub conversation_id : Uuid
  pub user_id : Uuid
  pub last_read_at : Option Time
  pub joined_at : Time

-- The rows of the tables.
pub record Db : Type 0 where
  pub users : List User
  pub sessions : List AuthSession
  pub participants : List ConversationParticipant
  pub devices : List PushDevice
  pub deliveries : List PushDelivery

pub record Settings : Type 0 where
  pub apns_enabled : Bool
  pub apns_bundle_id : Option String
  pub apns_environment : Environment
  pub push_max_active_devices_per_user : ℕ
  pub push_delivery_lease_seconds : ℕ
  pub push_delivery_max_attempts : ℕ
  pub push_delivery_retention_days : ℕ
  pub push_worker_batch_size : ℕ

abbrev pub second : ℕ
second = 1_000_000

abbrev pub day : ℕ
day = 86_400 * second

-- `_PLATFORM`
abbrev pub platform_ios : String
platform_ios = "ios"

-- `status in _CANCELABLE_DELIVERY_STATUSES`
abbrev pub is_cancelable : DeliveryStatus → Bool
is_cancelable pending = true
is_cancelable processing = true
is_cancelable _ = false

-- `status in _TERMINAL_DELIVERY_STATUSES`
abbrev pub is_terminal : DeliveryStatus → Bool
is_terminal sent = true
is_terminal failed = true
is_terminal cancelled = true
is_terminal _ = false

abbrev pub is_pending : DeliveryStatus → Bool
is_pending pending = true
is_pending _ = false

abbrev pub is_processing : DeliveryStatus → Bool
is_processing processing = true
is_processing _ = false

abbrev pub is_sent : DeliveryStatus → Bool
is_sent sent = true
is_sent _ = false

-- `topic == settings.apns_bundle_id`; a topic is never NULL
abbrev pub is_bundle : Option String → String → Bool
is_bundle none topic = false
is_bundle (some bundle) topic = str_eq topic bundle

-- `ids.contains`, for `id.in_(ids)`
abbrev pub member : Uuid → List Uuid → Bool
member x ids = any (λ i. i == x) ids

-- The joins follow foreign keys to the one row with the key.
unfoldable pub session_of : Db → PushDevice → Option AuthSession
session_of db d = find (λ (s : AuthSession). s.id == d.auth_session_id) db.sessions

unfoldable pub user_of : Db → PushDevice → Option User
user_of db d = find (λ (u : User). u.id == d.user_id) db.users

unfoldable pub device_by_id : Db → Uuid → Option PushDevice
device_by_id db i = find (λ (d : PushDevice). d.id == i) db.devices

unfoldable pub delivery_by_id : Db → Uuid → Option PushDelivery
delivery_by_id db i = find (λ (q : PushDelivery). q.id == i) db.deliveries

-- The session of a device is its user's, not revoked, and not expired.
abbrev pub is_live_session : Time → PushDevice → Option AuthSession → Bool
is_live_session now d none = false
is_live_session now d (some s) =
    s.user_id == d.user_id && (is_none s.revoked_at && ltb now s.expires_at)

abbrev pub is_active_user : Option User → Bool
is_active_user none = false
is_active_user (some u) = u.is_active

-- The joins and conditions on session and user that the queries share.
unfoldable pub has_live_binding : Db → Time → PushDevice → Bool
unfolding session_of user_of
has_live_binding db now d = is_live_session now d (session_of db d) && is_active_user (user_of db d)
