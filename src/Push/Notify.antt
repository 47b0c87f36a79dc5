-- ===== src/Push/Notify.antt =====
-- Whom a message of app/services/push.py notifies.
use fofu_backend.Base.{
  append_nil, ℕ, ◌+◌, Uuid, Time, ◌≡◌, refl, ap, sym, suc, true, not, ◌||◌, List, [], ◌∷◌, ◌++◌,
  ◌==◌, arith, is_none, length, select, All, All-select_Mem, any-Mem, find-Mem, find-passes, find,
  Mem, Option-cases, inl, inr, none, some, ◌≢◌, ◌<◌, if-split,
}
use fofu_backend.Push.Rows.{
  Db, PushDevice, PushDelivery, Settings, AuthSession, User, ConversationParticipant, pending,
  is_live_session, is_active_user, session_of, user_of, has_live_binding,
}
use fofu_backend.Push.Enqueue.{
  Message, takes_part, is_notified, new_delivery, new_deliveries, enqueue_message_notifications,
}

-- A session of the device's user that is neither revoked nor expired, and the user's active account.
abbrev pub IsReachable : Db → Time → PushDevice → Type 0
IsReachable db now d =
    ((s : AuthSession) × Mem s db.sessions
      × (s.id ≡ d.auth_session_id)
      × (s.user_id ≡ d.user_id)
      × (s.revoked_at ≡ none)
      × (now < s.expires_at))
    × ((u : User) × Mem u db.users × (u.id ≡ d.user_id) × (u.is_active ≡ true))

-- The delivery waits for a device of the tables, active and with a live session of an active user, of
-- a participant of the conversation other than the sender.
abbrev pub IsDueTo : Db → Message → Time → PushDelivery → Type 0
IsDueTo db message now q =
    (q.status ≡ pending)
    × (q.event_key ≡ message.id)
    × ((p : ConversationParticipant) × Mem p db.participants
        × (p.conversation_id ≡ message.conversation_id)
        × (p.user_id ≡ q.recipient_user_id))
    × (q.recipient_user_id ≢ message.sender_user_id)
    × ((d : PushDevice) × Mem d db.devices
        × (d.id ≡ q.device_id)
        × (d.user_id ≡ q.recipient_user_id)
        × (d.is_active ≡ true)
        × IsReachable db now d)

live_session :
    (db : Db) (now : Time) (d : PushDevice)
    → is_live_session now d (session_of db d) ≡ true
    → (s : AuthSession) × Mem s db.sessions
      × (s.id ≡ d.auth_session_id)
      × (s.user_id ≡ d.user_id)
      × (s.revoked_at ≡ none)
      × (now < s.expires_at)
unfolding session_of
live_session db now d h =
    elim (Option-cases (find (λ (s : AuthSession). s.id == d.auth_session_id) db.sessions)) [
      | inl missing ↦ absurd (ground (arith, rw missing at h))
      | inr (s, found) ↦
          let good : is_live_session now d (some s) ≡ true = rw found at h in
          let same =
            find-passes (λ (s : AuthSession). s.id == d.auth_session_id) db.sessions found in
          (
            s,
            find-Mem _ db.sessions found,
            ground (arith, same),
            ground (arith, good),
            ground (arith, good),
            ground (arith, good),
          )
    ]

active_user :
    (db : Db) (d : PushDevice)
    → is_active_user (user_of db d) ≡ true
    → (u : User) × Mem u db.users × (u.id ≡ d.user_id) × (u.is_active ≡ true)
unfolding user_of
active_user db d h = elim (Option-cases (find (λ (u : User). u.id == d.user_id) db.users)) [
  | inl missing ↦ absurd (ground (arith, rw missing at h))
  | inr (u, found) ↦
      let same = find-passes (λ (u : User). u.id == d.user_id) db.users found in
      (u, find-Mem _ db.users found, ground (arith, same), rw found at h)
]

participant :
    (db : Db) (conversation_id user_id : Uuid)
    → takes_part db conversation_id user_id ≡ true
    → (p : ConversationParticipant) × Mem p db.participants
      × (p.conversation_id ≡ conversation_id)
      × (p.user_id ≡ user_id)
unfolding takes_part
participant db conversation_id user_id h =
    let (p, there, hit) = any-Mem _ db.participants h in
    (p, there, ground (arith, hit), ground (arith, hit))

new_delivery-IsDueTo :
    (settings : Settings) (db : Db) (message : Message) (now : Time) (id : Uuid) (d : PushDevice)
    → Mem d db.devices
    → is_notified settings db message now d ≡ true
    → IsDueTo db message now (new_delivery message now id d)
unfolding is_notified has_live_binding
new_delivery-IsDueTo settings db message now id d there h = (
  refl,
  refl,
  participant db message.conversation_id d.user_id (ground (arith, h)),
  λ same. absurd (ground (arith, h, same)),
  (
    d,
    there,
    refl,
    refl,
    ground (arith, h),
    (live_session db now d (ground (arith, h)), active_user db d (ground (arith, h))),
  ),
)

new_deliveries-IsDueTo :
    (settings : Settings) (db : Db) (message : Message) (now : Time) (new_id : ℕ → Uuid) (n : ℕ)
    (ds : List PushDevice)
    → All (λ d. Mem d db.devices × (is_notified settings db message now d ≡ true)) ds
    → All (IsDueTo db message now) (new_deliveries message now new_id n ds)
      × (length (new_deliveries message now new_id n ds) ≡ length ds)
unfolding new_deliveries
new_deliveries-IsDueTo settings db message now new_id n [] h = (tt, refl)
new_deliveries-IsDueTo settings db message now new_id n (d ∷ ds) h =
    let rest = new_deliveries-IsDueTo settings db message now new_id (n + 1) ds h.1 in
    (
      (new_delivery-IsDueTo settings db message now (new_id n) d h.0.0 h.0.1, rest.0),
      ap (λ k. suc k) rest.1,
    )

-- A message adds deliveries behind those that were there, and changes none of these. Each is of the
-- message and waits for a row of the devices' table that is active, whose user takes part in the
-- conversation and is not the sender, whose session is a row that is neither revoked nor expired, and
-- whose user is a row that is active; and the result is the number of the deliveries.
pub enqueue_message_notifications-IsDueTo :
    (settings : Settings) (message : Message) (now : Time) (new_id : ℕ → Uuid) (db : Db)
    → let (db', n) = enqueue_message_notifications settings message now new_id db in
      (added : List PushDelivery) × (db'.deliveries ≡ db.deliveries ++ added)
      × (length added ≡ n)
      × All (IsDueTo db message now) added
unfolding enqueue_message_notifications
enqueue_message_notifications-IsDueTo settings message now new_id db =
    let devices = select (is_notified settings db message now) db.devices in
    let due = new_deliveries-IsDueTo settings db message now new_id 0 devices (
      All-select_Mem _ (is_notified settings db message now) db.devices
        (λ d there e. (there, e))) in
    if-split
      (λ (r : Db × ℕ).
        (added : List PushDelivery) × (r.0.deliveries ≡ db.deliveries ++ added)
        × (length added ≡ r.1)
        × All (IsDueTo db message now) added)
      (not settings.apns_enabled || is_none settings.apns_bundle_id)
      (λ _. ([], sym (append_nil db.deliveries), refl, tt))
      (λ _. (new_deliveries message now new_id 0 devices, refl, due.1, due.0))
