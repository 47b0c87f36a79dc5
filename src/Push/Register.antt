-- ===== src/Push/Register.antt =====
-- app/services/push.py: `register_device`.
use fofu_backend.Base.{
  Result, ok, err, Uuid, Time, ◌&&◌, ◌||◌, not, String, Bool, true, false, Option, none, some, [],
  ◌∷◌, ◌++◌, leb, ◌==◌, str_eq, find, select, update_where, delete_where, count_if, if◌then◌else◌,
}
use fofu_backend.RateLimit.Bucket.{SlidingWindowLimiter, Outcome, admitted, limited, check}
use fofu_backend.Push.Rows.{
  Db, PushDevice, PushDelivery, User, AuthSession, Environment, Settings, is_ios, is_full,
  same_environment, platform_ios, session_of, is_live_session,
}
use fofu_backend.Push.Cancel.{deactivate_devices, cancel_device_deliveries, ids_of}

pub data PushError : Type 0 where
  push_not_configured full_ios_push_session_required rate_limit_exceeded : PushError
  push_environment_mismatch push_device_limit_reached push_device_registration_conflict : PushError

-- app/schemas/push.py: `PushDeviceRegistration`, validated
pub record PushDeviceRegistration : Type 0 where
  pub token : String
  pub environment : Environment
  pub locale : Option String

-- `_configured_topic`; an identifier of blanks has been read as missing
unfoldable pub configured_topic : Settings → Result PushError String
configured_topic settings =
    if not settings.apns_enabled
    then err push_not_configured
    else elim settings.apns_bundle_id [ none ↦ err push_not_configured | some bundle ↦ ok bundle ]

-- What identifies the registration: the user, where the device is reached, and the clock.
pub record Request : Type 0 where
  pub user : User
  pub session : AuthSession
  pub installation_id : String
  pub payload : PushDeviceRegistration
  -- the id that a new row gets
  pub new_id : Uuid
  pub now : Time
  -- the clock of the statements after `now`
  pub later : Time
  -- another transaction commits a row with one of the two unique identities first
  pub conflict : Bool

-- The devices of the user for another topic or environment.
abbrev pub is_obsolete : String → Request → PushDevice → Bool
is_obsolete topic r d =
    d.user_id == r.user.id
    && (str_eq d.platform platform_ios
        && (d.is_active
            && (not (str_eq d.topic topic)
                || not (same_environment d.environment r.payload.environment))))

abbrev pub is_here : String → Environment → PushDevice → Bool
is_here topic environment d =
    str_eq d.platform platform_ios
    && (str_eq d.topic topic && same_environment d.environment environment)

-- The user's active devices for this topic and environment.
abbrev pub is_active_here : String → Request → PushDevice → Bool
is_active_here topic r d =
    d.user_id == r.user.id && (is_here topic r.payload.environment d && d.is_active)

-- The join on the session and its three conditions.
abbrev pub is_stale_session : Time → PushDevice → Option AuthSession → Bool
is_stale_session now d none = false
is_stale_session now d (some s) = not (is_live_session now d (some s))

unfoldable pub retire_obsolete : String → Request → Db → Db
retire_obsolete topic r db =
    deactivate_devices (ids_of (select (is_obsolete topic r) db.devices)) "configuration_changed"
      r.now db

unfoldable pub is_stale : String → Request → Db → PushDevice → Bool
is_stale topic r db d = is_active_here topic r d && is_stale_session r.now d (session_of db d)

unfoldable pub retire_stale : String → Request → Db → Db
unfolding is_stale
retire_stale topic r db =
    deactivate_devices (ids_of (select (is_stale topic r db) db.devices)) "session_inactive" r.now
      db

unfoldable pub installation_device : String → Request → Db → Option PushDevice
installation_device topic r db =
    find
      (λ (d : PushDevice).
        is_here topic r.payload.environment d && str_eq d.installation_id r.installation_id)
      db.devices

unfoldable pub token_device : String → Request → Db → Option PushDevice
token_device topic r db =
    find
      (λ (d : PushDevice).
        is_here topic r.payload.environment d && str_eq d.device_token r.payload.token)
      db.devices

abbrev pub is_users_active : Uuid → Option PushDevice → Bool
is_users_active user_id none = false
is_users_active user_id (some d) = d.user_id == user_id && d.is_active

-- `active_device_count`: the devices that count towards the cap
unfoldable pub counts : String → Request → Db → PushDevice → Bool
counts topic r db d = is_active_here topic r d && is_live_session r.now d (session_of db d)

-- Deleting a device deletes its deliveries: the foreign key cascades.
abbrev pub delete_device : Uuid → Db → Db
delete_device i db = record db {
  devices = delete_where (λ (d : PushDevice). d.id == i) db.devices;
  deliveries = delete_where (λ (q : PushDelivery). q.device_id == i) db.deliveries;
}

-- The assignments to `target`.
abbrev pub bind : String → Request → PushDevice → PushDevice
bind topic r d = record d {
  user_id = r.user.id;
  auth_session_id = r.session.id;
  installation_id = r.installation_id;
  device_token = r.payload.token;
  locale = elim r.payload.locale [ none ↦ some r.user.locale | some l ↦ some l ];
  is_active = true;
  invalidated_reason = none;
  invalidated_at = none;
  last_registered_at = r.now;
  updated_at = r.later;
}

abbrev pub new_device : String → Request → PushDevice
new_device topic r = bind topic r (record {
  id = r.new_id;
  user_id = r.user.id;
  auth_session_id = r.session.id;
  installation_id = r.installation_id;
  device_token = r.payload.token;
  platform = platform_ios;
  topic = topic;
  environment = r.payload.environment;
  locale = none;
  is_active = true;
  invalidated_reason = none;
  invalidated_at = none;
  last_registered_at = r.now;
  updated_at = r.later;
})

-- `if token_device is not None and installation_device is not None`
unfoldable pub drop_rebound : Request → Option PushDevice → Option PushDevice → Db → Db
unfolding cancel_device_deliveries
drop_rebound r (some t) (some i) db =
    if t.id == i.id
    then db
    else delete_device i.id (cancel_device_deliveries i.id "installation_rebound" none r.later db)
drop_rebound r _ _ db = db

unfoldable pub bind_target : String → Request → Option PushDevice → Db → Db × PushDevice
unfolding cancel_device_deliveries
bind_target topic r none db =
    (record db { devices = db.devices ++ new_device topic r ∷ [] }, new_device topic r)
bind_target topic r (some target) db =
    let db' =
      if target.user_id == r.user.id && target.auth_session_id == r.session.id
      then db
      else cancel_device_deliveries target.id "device_rebound" none r.later db in
    (
      record db' {
        devices = update_where (λ (d : PushDevice). d.id == target.id) (bind topic r) db'.devices;
      },
      bind topic r target,
    )

-- `token_device or installation_device`
abbrev pub first_of_two : Option PushDevice → Option PushDevice → Option PushDevice
first_of_two none i = i
first_of_two (some t) i = some t

-- From the two locked reads to the end; an error leaves the tables as they were, since nothing is
-- committed.
unfoldable pub rebind : String → Settings → Request → Db → Db → Db × Result PushError PushDevice
unfolding drop_rebound bind_target counts installation_device token_device
rebind topic settings r before db =
    let installed = installation_device topic r db in
    let tokened = token_device topic r db in
    let replaces = is_users_active r.user.id installed || is_users_active r.user.id tokened in
    let count = count_if (counts topic r db) db.devices in
    let (after, device) =
      bind_target topic r (first_of_two tokened installed) (drop_rebound r tokened installed db) in
    if not replaces && leb settings.push_max_active_devices_per_user count
    then (before, err push_device_limit_reached)
    else if r.conflict
    then (before, err push_device_registration_conflict)
    else (after, ok device)

-- `register_device` after the limiter's check.
unfoldable pub register_checked :
    Settings
    → String
    → Request
    → Db
    → SlidingWindowLimiter × Outcome
    → SlidingWindowLimiter × Db × Result PushError PushDevice
unfolding rebind retire_obsolete retire_stale
register_checked settings topic r db (limiter, limited seconds) =
    (limiter, db, err rate_limit_exceeded)
register_checked settings topic r db (limiter, admitted) =
    if not (same_environment r.payload.environment settings.apns_environment)
    then (limiter, db, err push_environment_mismatch)
    else (let (db', result) =
          rebind topic settings r db (retire_stale topic r (retire_obsolete topic r db)) in
        (limiter, db', result))

-- `register_device` from the topic on.
unfoldable pub register_for :
    Settings
    → SlidingWindowLimiter
    → String
    → Time
    → Request
    → Db
    → Result PushError String
    → SlidingWindowLimiter × Db × Result PushError PushDevice
unfolding register_checked
register_for settings limiter key tick r db (err e) = (limiter, db, err e)
register_for settings limiter key tick r db (ok topic) =
    if not (is_ios r.session.client_type) || (not (is_full r.session.scope) || r.user.is_guest)
    then (limiter, db, err full_ios_push_session_required)
    else register_checked settings topic r db (check limiter key tick)

-- `register_device`. `tick` is the reading of the limiter's own clock, and `key` the limiter's key
-- for the user. The limiter keeps what it did whatever the rest does.
unfoldable pub register_device :
    Settings
    → SlidingWindowLimiter
    → String
    → Time
    → Request
    → Db
    → SlidingWindowLimiter × Db × Result PushError PushDevice
unfolding configured_topic register_for
register_device settings limiter key tick r db =
    register_for settings limiter key tick r db (configured_topic settings)
