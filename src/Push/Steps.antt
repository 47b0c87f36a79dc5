-- ===== src/Push/Steps.antt =====
-- Every way in which app/services/push.py changes the tables, and what holds in each reachable state.
use fofu_backend.Base.{
  Result, ok, err, ℕ, ◌+◌, Uuid, Time, String, inl, inr, Bool, ◌&&◌, ◌||◌, not, Option, none, some,
  List, [], ◌∷◌, arith, ◌==◌, is_none, All, All-append, All-delete_where, if-split, Bool-cases,
}
use fofu_backend.RateLimit.Bucket.{SlidingWindowLimiter, Outcome, admitted, limited, check}
use fofu_backend.Push.Rows.{
  Db, User, AuthSession, ConversationParticipant, PushDevice, Settings, same_environment,
}
use fofu_backend.Push.Cancel.{deactivate_session_devices, unregister_device}
use fofu_backend.Push.Register.{
  PushError, Request, retire_obsolete, retire_stale, drop_rebound, bind_target, rebind,
  register_checked, register_for, register_device, configured_topic, delete_device, first_of_two,
  installation_device, token_device,
}
use fofu_backend.Push.Enqueue.{Message, new_deliveries, enqueue_message_notifications}
use fofu_backend.Push.Claim.{ClaimedDelivery, claim_push_deliveries}
use fofu_backend.Push.Finish.{ApnsResult, finish_delivery, purge_terminal_push_deliveries}
use fofu_backend.Push.Invariant.{IsWellFormed, new_delivery-IsWellFormed}
use fofu_backend.Push.Keys.{Distinct, Distinct-delete_where}
use fofu_backend.Push.Valid.{
  IsValid, cancel_device_deliveries-IsValid, deactivate_devices-IsValid,
  deactivate_session_devices-IsValid, unregister_device-IsValid, purge-IsValid,
  finish_delivery-IsValid,
}
use fofu_backend.Push.Claims.{claim-IsValid}

new_deliveries-IsWellFormed :
    (attempts : ℕ) (message : Message) (now : Time) (new_id : ℕ → Uuid) (n : ℕ)
    (ds : List PushDevice)
    → All (IsWellFormed attempts) (new_deliveries message now new_id n ds)
unfolding new_deliveries
new_deliveries-IsWellFormed attempts message now new_id n [] = tt
new_deliveries-IsWellFormed attempts message now new_id n (d ∷ ds) = (
  new_delivery-IsWellFormed attempts message now (new_id n) d,
  new_deliveries-IsWellFormed attempts message now new_id (n + 1) ds,
)

module _ {attempts : ℕ} where
  delete_device-IsValid :
      (i : Uuid) (db : Db) → IsValid attempts db → IsValid attempts (delete_device i db)
  delete_device-IsValid i db h = record {
    deliveries = (
      All-delete_where (IsWellFormed attempts) _ db.deliveries h.deliveries.0,
      Distinct-delete_where _ db.deliveries h.deliveries.1,
    );
  }

  drop_rebound-IsValid :
      (r : Request) (t i : Option PushDevice) (db : Db)
      → IsValid attempts db
      → IsValid attempts (drop_rebound r t i db)
  unfolding drop_rebound
  drop_rebound-IsValid r (some t) (some i) db h =
      if-split (IsValid attempts) (t.id == i.id) (λ _. h)
        (λ _.
          delete_device-IsValid i.id _
            (cancel_device_deliveries-IsValid i.id "installation_rebound" none r.later db h))
  drop_rebound-IsValid r (some t) none db h = h
  drop_rebound-IsValid r none i db h = h

  bind_target-IsValid :
      (topic : String) (r : Request) (t : Option PushDevice) (db : Db)
      → IsValid attempts db
      → IsValid attempts (bind_target topic r t db).0
  unfolding bind_target
  bind_target-IsValid topic r none db h = record { deliveries = h.deliveries }
  bind_target-IsValid topic r (some t) db h = record {
    deliveries =
        (if-split (IsValid attempts) (t.user_id == r.user.id && t.auth_session_id == r.session.id)
          (λ _. h)
          (λ _.
            cancel_device_deliveries-IsValid t.id "device_rebound" none r.later db h)).deliveries;
  }

  rebind-IsValid :
      (topic : String) (settings : Settings) (r : Request) (before db : Db)
      → IsValid attempts before
      → IsValid attempts db
      → IsValid attempts (rebind topic settings r before db).0
  unfolding rebind
  rebind-IsValid topic settings r before db hb h = ground (
    arith,
    hb,
    bind_target-IsValid topic r
        (first_of_two (token_device topic r db) (installation_device topic r db)) _
        (drop_rebound-IsValid r (token_device topic r db) (installation_device topic r db) db h),
  )

  register_checked-IsValid :
      (settings : Settings) (topic : String) (r : Request) (db : Db)
      (o : SlidingWindowLimiter × Outcome)
      → IsValid attempts db
      → IsValid attempts (register_checked settings topic r db o).1
  unfolding register_checked retire_obsolete retire_stale
  register_checked-IsValid settings topic r db (l, limited w) h = h
  register_checked-IsValid settings topic r db (l, admitted) h =
      elim (Bool-cases (same_environment r.payload.environment settings.apns_environment)) [
        | inr other ↦ rw other h
        | inl same ↦ rw same (
            rebind-IsValid topic settings r db _ h (
              deactivate_devices-IsValid _ "session_inactive" r.now _
                (deactivate_devices-IsValid _ "configuration_changed" r.now db h)))
      ]

  register_for-IsValid :
      (settings : Settings) (limiter : SlidingWindowLimiter) (key : String) (tick : Time)
      (r : Request) (db : Db) (topic : Result PushError String)
      → IsValid attempts db
      → IsValid attempts (register_for settings limiter key tick r db topic).1
  unfolding register_for
  register_for-IsValid settings limiter key tick r db (err e) h = h
  register_for-IsValid settings limiter key tick r db (ok topic) h =
      ground (arith, h, register_checked-IsValid settings topic r db (check limiter key tick) h)

  register_device-IsValid :
      (settings : Settings) (limiter : SlidingWindowLimiter) (key : String) (tick : Time)
      (r : Request) (db : Db)
      → IsValid attempts db
      → IsValid attempts (register_device settings limiter key tick r db).1
  unfolding register_device
  register_device-IsValid settings limiter key tick r db h =
      register_for-IsValid settings limiter key tick r db (configured_topic settings) h

  -- New rows are well formed; the primary key keeps the ids distinct.
  enqueue-IsValid :
      (settings : Settings) (message : Message) (now : Time) (new_id : ℕ → Uuid) (db : Db)
      → Distinct (enqueue_message_notifications settings message now new_id db).0.deliveries
      → IsValid attempts db
      → IsValid attempts (enqueue_message_notifications settings message now new_id db).0
  unfolding enqueue_message_notifications
  enqueue-IsValid settings message now new_id db distinct h =
      elim (Bool-cases (not settings.apns_enabled || is_none settings.apns_bundle_id)) [
        | inl off ↦ rw off h
        | inr on ↦ rw on (record {
          deliveries = (
            All-append (IsWellFormed attempts) db.deliveries _ h.deliveries.0
                (new_deliveries-IsWellFormed attempts message now new_id 0 _),
            rw on at distinct,
          );
        })
      ]

-- One transaction: an operation of this module, or a change of users, sessions and participants by
-- another part of the program.
pub data Step (settings : Settings) : Db → Db → Type 0 where
  register :
      (limiter : SlidingWindowLimiter) (key : String) (tick : Time) (r : Request) (db : Db)
      → Step settings db (register_device settings limiter key tick r db).1
  unregister :
      (user_id : Uuid) (installation_id : String) (now later : Time) (db : Db)
      → Step settings db (unregister_device user_id installation_id now later db)
  deactivate :
      (session_id user_id : Option Uuid) (reason : String) (now : Time) (db : Db)
      → Step settings db (deactivate_session_devices session_id user_id reason now db).0
  -- The ids of the table are its primary key.
  enqueue :
      (message : Message) (now : Time) (new_id : ℕ → Uuid) (db : Db)
      → Distinct (enqueue_message_notifications settings message now new_id db).0.deliveries
      → Step settings db (enqueue_message_notifications settings message now new_id db).0
  claim :
      (now later : Time) (locked : Uuid → Bool) (new_id : ℕ → Uuid) (db : Db)
      → Step settings db (claim_push_deliveries settings now later locked new_id db).0
  finish :
      (c : ClaimedDelivery) (result : ApnsResult) (now later : Time) (db : Db)
      → Step settings db (finish_delivery settings c result now later db)
  purge :
      (now : Time) (batch_size : ℕ) (db : Db)
      → Step settings db (purge_terminal_push_deliveries settings now batch_size db).0
  elsewhere :
      (users : List User) (sessions : List AuthSession)
      (participants : List ConversationParticipant) (db : Db)
      → Step settings db
          (record db { users = users; sessions = sessions; participants = participants })

pub data Reach (settings : Settings) (s : Db) : Db → Type 0 where
  here : Reach settings s s
  next : {t u : Db} → Reach settings s t → Step settings t u → Reach settings s u

pub Step-IsValid :
    {settings : Settings} {t u : Db}
    → Step settings t u
    → IsValid settings.push_delivery_max_attempts t
    → IsValid settings.push_delivery_max_attempts u
Step-IsValid {settings} (register limiter key tick r db) h =
    register_device-IsValid settings limiter key tick r db h
Step-IsValid (unregister user_id installation_id now later db) h =
    unregister_device-IsValid user_id installation_id now later db h
Step-IsValid (deactivate session_id user_id reason now db) h =
    deactivate_session_devices-IsValid session_id user_id reason now db h
Step-IsValid {settings} (enqueue message now new_id db distinct) h =
    enqueue-IsValid settings message now new_id db distinct h
Step-IsValid {settings} (claim now later locked new_id db) h =
    claim-IsValid settings now later locked new_id db h
Step-IsValid {settings} (finish c result now later db) h =
    finish_delivery-IsValid settings c result now later db h
Step-IsValid {settings} (purge now batch_size db) h = purge-IsValid settings now batch_size db h
Step-IsValid (elsewhere users sessions participants db) h = record { deliveries = h.deliveries }

-- In every state that the transactions reach from a valid one, and an empty outbox is valid: a
-- delivery has a lease with its end exactly while it is processing, a time of sending exactly when
-- it is sent, no more attempts than the limit, and an id of its own.
pub Reach-IsValid :
    {settings : Settings} {s t : Db}
    → IsValid settings.push_delivery_max_attempts s
    → Reach settings s t
    → IsValid settings.push_delivery_max_attempts t
Reach-IsValid h here = h
Reach-IsValid h (next r st) = Step-IsValid st (Reach-IsValid h r)
