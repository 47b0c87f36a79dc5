-- ===== src/Push/Cancel.antt =====
-- app/services/push.py: what takes devices out of service and cancels their deliveries.
use fofu_backend.Base.{
  ℕ, Uuid, Time, ◌&&◌, not, String, Bool, true, false, Option, none, some, List, [], ◌∷◌, map, ◌==◌,
  str_eq, is_none, is_some, select, update_where, length, is_empty, if◌then◌else◌,
}
use fofu_backend.Push.Rows.{
  Db, PushDevice, PushDelivery, cancelled, is_cancelable, member, session_of, user_of,
  has_live_binding, platform_ios,
}

-- The columns that every cancellation writes.
abbrev pub cancel : String → Time → PushDelivery → PushDelivery
cancel reason now q = record q {
  status = cancelled;
  lease_id = none;
  lease_expires_at = none;
  last_error_code = some reason;
  updated_at = now;
}

abbrev pub cancel_deliveries : (PushDelivery → Bool) → String → Time → Db → Db
cancel_deliveries p reason now db = record db {
  deliveries = update_where (λ q. is_cancelable q.status && p q) (cancel reason now) db.deliveries;
}

-- The columns that every invalidation of a device writes.
abbrev pub invalidate : String → Time → PushDevice → PushDevice
invalidate reason now d = record d {
  is_active = false;
  invalidated_reason = some reason;
  invalidated_at = some now;
  updated_at = now;
}

-- `id != excluding`, where nothing may be excluded
abbrev pub is_other : Option Uuid → Uuid → Bool
is_other none i = true
is_other (some j) i = not (i == j)

-- `_cancel_device_deliveries`
unfoldable pub cancel_device_deliveries : Uuid → String → Option Uuid → Time → Db → Db
cancel_device_deliveries device_id reason excluding =
    cancel_deliveries (λ q. q.device_id == device_id && is_other excluding q.id) reason

-- The pair of statements on a list of device ids that `deactivate_session_devices` and
-- `register_device` share.
unfoldable pub deactivate_devices : List Uuid → String → Time → Db → Db
deactivate_devices ids reason now db =
    cancel_deliveries (λ q. member q.device_id ids) reason now
      (record db {
        devices = update_where (λ d. member d.id ids) (invalidate reason now) db.devices;
      })

abbrev pub matches : Option Uuid → Uuid → Bool
matches none i = true
matches (some j) i = i == j

abbrev pub ids_of : List PushDevice → List Uuid
ids_of = map (λ d. d.id)

-- The filters of `deactivate_session_devices`.
abbrev pub is_bound : Option Uuid → Option Uuid → PushDevice → Bool
is_bound session_id user_id d =
    d.is_active && (matches session_id d.auth_session_id && matches user_id d.user_id)

unfoldable pub bound_devices : Option Uuid → Option Uuid → Db → List Uuid
bound_devices session_id user_id db = ids_of (select (is_bound session_id user_id) db.devices)

-- `deactivate_session_devices`: the number of devices that it took out of service
unfoldable pub deactivate_session_devices : Option Uuid → Option Uuid → String → Time → Db → Db × ℕ
unfolding bound_devices deactivate_devices
deactivate_session_devices session_id user_id reason now db =
    if is_none session_id && is_none user_id
    then (db, 0)
    else if is_empty (bound_devices session_id user_id db)
    then (db, 0)
    else (
      deactivate_devices (bound_devices session_id user_id db) reason now db,
      length (bound_devices session_id user_id db),
    )

-- The body of the loop of `unregister_device`: `later` is the clock of the statements after `now`.
unfoldable pub unregister_each : List PushDevice → Time → Time → Db → Db
unfolding cancel_device_deliveries
unregister_each [] now later db = db
unregister_each (d ∷ ds) now later db = unregister_each ds now later (
    cancel_device_deliveries d.id "user_unregistered" none later (record db {
      devices =
          update_where (λ (e : PushDevice). e.id == d.id)
            (λ e. record (invalidate "user_unregistered" now e) { updated_at = later }) db.devices;
    }))

-- The filters of `unregister_device`.
abbrev pub is_registered : Uuid → String → PushDevice → Bool
is_registered user_id installation_id d =
    d.user_id == user_id
    && (str_eq d.platform platform_ios && (str_eq d.installation_id installation_id && d.is_active))

unfoldable pub unregister_device : Uuid → String → Time → Time → Db → Db
unfolding unregister_each
unregister_device user_id installation_id now later db =
    unregister_each (select (is_registered user_id installation_id) db.devices) now later db

-- `_cancel_expired_session_deliveries`, the device's session and user being given: the condition
-- of the first query. A device with no session or user row is in no join.
unfoldable pub is_inactive_binding : Db → Time → PushDevice → Bool
unfolding has_live_binding
is_inactive_binding db now d =
    (is_some (session_of db d) && is_some (user_of db d)) && not (has_live_binding db now d)

unfoldable pub is_valid_device : Db → Time → PushDevice → Bool
unfolding has_live_binding
is_valid_device db now d = d.is_active && has_live_binding db now d

unfoldable pub cancel_expired_session_deliveries : Time → Db → Db
unfolding is_inactive_binding is_valid_device
cancel_expired_session_deliveries now db =
    let inactive = ids_of (select (λ d. d.is_active && is_inactive_binding db now d) db.devices) in
    let db' = record db {
      devices =
          update_where (λ d. member d.id inactive) (invalidate "session_inactive" now) db.devices;
    } in
    let valid = ids_of (select (is_valid_device db' now) db'.devices) in
    cancel_deliveries (λ q. not (member q.device_id valid)) "session_inactive" now db'
