-- ===== src/Push/Valid.antt =====
-- The statements of app/services/push.py keep the outbox well formed, table by table.
use fofu_backend.Base.{
  ℕ, Uuid, Time, String, ◌≡◌, refl, inl, inr, Bool, true, ◌&&◌, not, Option, none, some, List, [],
  ◌∷◌, arith, ◌==◌, All, All-update_where, All-update_where_given, All-find, ==_iff,
  All-delete_where, and-true, if-split, Bool-cases, update_where, find, find-passes, is_empty,
  select,
}
use fofu_backend.Push.Rows.{
  Db, PushDevice, PushDelivery, is_processing, is_cancelable, Settings, delivery_by_id,
  device_by_id,
}
use fofu_backend.Push.Cancel.{
  cancel, cancel_deliveries, cancel_device_deliveries, deactivate_devices, bound_devices,
  deactivate_session_devices, is_registered, unregister_each, unregister_device,
  cancel_expired_session_deliveries,
}
use fofu_backend.Push.Claim.{ClaimedDelivery, exhaust, fail_exhausted, is_lease}
use fofu_backend.Push.Finish.{
  ApnsResult, finish, finish_delivery, finish_queued, drop_device, covers_device, holds_lease,
  purged_ids, purge_terminal_push_deliveries,
}
use fofu_backend.Push.Invariant.{
  IsWellFormed, cancel-IsWellFormed, exhaust-IsWellFormed, finish-IsWellFormed,
}
use fofu_backend.Push.Keys.{
  Distinct, Distinct-update_where, Distinct-delete_where, IsSnapshot, Distinct-IsSnapshot,
}

-- Every delivery is well formed, and no two have one id.
abbrev pub IsValidTable : ℕ → List PushDelivery → Type 0
IsValidTable attempts qs = All (IsWellFormed attempts) qs × Distinct qs

pub record IsValid (attempts : ℕ) (db : Db) : Type 0 where
  pub deliveries : IsValidTable attempts db.deliveries

module _ {attempts : ℕ} where
  pub update-IsValid :
      (p : PushDelivery → Bool) (f : PushDelivery → PushDelivery) (qs : List PushDelivery)
      → ((q : PushDelivery) → (f q).id ≡ q.id)
      → ((q : PushDelivery) → IsWellFormed attempts q → p q ≡ true → IsWellFormed attempts (f q))
      → IsValidTable attempts qs
      → IsValidTable attempts (update_where p f qs)
  update-IsValid p f qs keep row h = (
    All-update_where (IsWellFormed attempts) p f qs row h.0,
    Distinct-update_where p f keep qs h.1,
  )

  pub cancel_deliveries-IsValid :
      (p : PushDelivery → Bool) (reason : String) (now : Time) (db : Db)
      → IsValid attempts db
      → IsValid attempts (cancel_deliveries p reason now db)
  cancel_deliveries-IsValid p reason now db h = record {
    deliveries =
        update-IsValid _ (cancel reason now) db.deliveries (λ q. refl)
          (λ q ok e.
            cancel-IsWellFormed ok reason now (and-true (is_cancelable q.status) (p q) e).0)
          h.deliveries;
  }

  pub cancel_device_deliveries-IsValid :
      (i : Uuid) (reason : String) (excluding : Option Uuid) (now : Time) (db : Db)
      → IsValid attempts db
      → IsValid attempts (cancel_device_deliveries i reason excluding now db)
  unfolding cancel_device_deliveries
  cancel_device_deliveries-IsValid i reason excluding now db h =
      cancel_deliveries-IsValid _ reason now db h

  pub deactivate_devices-IsValid :
      (ids : List Uuid) (reason : String) (now : Time) (db : Db)
      → IsValid attempts db
      → IsValid attempts (deactivate_devices ids reason now db)
  unfolding deactivate_devices
  deactivate_devices-IsValid ids reason now db h =
      cancel_deliveries-IsValid _ reason now _ (record { deliveries = h.deliveries })

  pub deactivate_session_devices-IsValid :
      (session_id user_id : Option Uuid) (reason : String) (now : Time) (db : Db)
      → IsValid attempts db
      → IsValid attempts (deactivate_session_devices session_id user_id reason now db).0
  unfolding deactivate_session_devices
  deactivate_session_devices-IsValid session_id user_id reason now db h =
      ground
        (arith, h, deactivate_devices-IsValid (bound_devices session_id user_id db) reason now db h)

  unregister_each-IsValid :
      (ds : List PushDevice) (now later : Time) (db : Db)
      → IsValid attempts db
      → IsValid attempts (unregister_each ds now later db)
  unfolding unregister_each
  unregister_each-IsValid [] now later db h = h
  unregister_each-IsValid (d ∷ ds) now later db h = unregister_each-IsValid ds now later _ (
      cancel_deliveries-IsValid _ "user_unregistered" later _
        (record { deliveries = h.deliveries }))

  pub unregister_device-IsValid :
      (user_id : Uuid) (installation_id : String) (now later : Time) (db : Db)
      → IsValid attempts db
      → IsValid attempts (unregister_device user_id installation_id now later db)
  unfolding unregister_device
  unregister_device-IsValid user_id installation_id now later db h =
      unregister_each-IsValid (select (is_registered user_id installation_id) db.devices) now later
        db h

  pub cancel_expired-IsValid :
      (now : Time) (db : Db)
      → IsValid attempts db
      → IsValid attempts (cancel_expired_session_deliveries now db)
  unfolding cancel_expired_session_deliveries
  cancel_expired-IsValid now db h =
      cancel_deliveries-IsValid _ "session_inactive" now _ (record { deliveries = h.deliveries })

  pub fail_exhausted-IsValid :
      (now : Time) (db : Db)
      → IsValid attempts db
      → IsValid attempts (fail_exhausted attempts now db)
  unfolding fail_exhausted
  fail_exhausted-IsValid now db h = record {
    deliveries =
        update-IsValid _ (exhaust now) db.deliveries (λ q. refl)
          (λ q ok e. exhaust-IsWellFormed ok now e) h.deliveries;
  }

  pub purge-IsValid :
      (settings : Settings) (now : Time) (batch_size : ℕ) (db : Db)
      → IsValid attempts db
      → IsValid attempts (purge_terminal_push_deliveries settings now batch_size db).0
  unfolding purge_terminal_push_deliveries
  purge-IsValid settings now batch_size db h =
      if-split (λ (r : Db × ℕ). IsValid attempts r.0)
        (is_empty (purged_ids settings now batch_size db)) (λ _. h)
        (λ _. record {
          deliveries = (
            All-delete_where (IsWellFormed attempts) _ db.deliveries h.deliveries.0,
            Distinct-delete_where _ db.deliveries h.deliveries.1,
          );
        })

  drop_device-IsValid :
      (c : ClaimedDelivery) (result : ApnsResult) (now later : Time) (d : Option PushDevice)
      (db : Db)
      → IsValid attempts db
      → IsValid attempts (drop_device c result now later d db)
  unfolding drop_device
  drop_device-IsValid c result now later none db h = h
  drop_device-IsValid c result now later (some d) db h =
      if-split (IsValid attempts) (covers_device c result d)
        (λ _. cancel_deliveries-IsValid _ _ later _ (record { deliveries = h.deliveries })) (λ _. h)

-- The row that a search by id finds is the only one with that id.
pub found-snapshot :
    (i : Uuid) (qs : List PushDelivery) {q : PushDelivery}
    → Distinct qs
    → find (λ (x : PushDelivery). x.id == i) qs ≡ some q
    → All (λ (p : PushDelivery). (p.id == i) ≡ true → p ≡ q) qs
found-snapshot i qs {q} distinct found =
    rw (← (==_iff q.id i).0 (find-passes (λ (x : PushDelivery). x.id == i) qs found)) (
      All-find (IsSnapshot qs) (λ (x : PushDelivery). x.id == i) qs
        (Distinct-IsSnapshot qs distinct) found)

module _ {attempts : ℕ} (settings : Settings) (c : ClaimedDelivery) (result : ApnsResult)
    (now later : Time) (db : Db) (h : IsValid attempts db) where
  finish_row-IsValid :
      {q : PushDelivery}
      → delivery_by_id db c.id ≡ some q
      → holds_lease c q ≡ true
      → IsValidTable attempts (
          update_where
            (λ (p : PushDelivery). p.id == c.id)
            (finish settings c result now later)
            db.deliveries)
  unfolding delivery_by_id finish
  finish_row-IsValid {q} found held = (
    All-update_where_given (IsWellFormed attempts)
        (λ (p : PushDelivery). (p.id == c.id) ≡ true → p ≡ q) (λ (p : PushDelivery). p.id == c.id)
        (finish settings c result now later) db.deliveries
        (λ x ok same e.
          finish-IsWellFormed ok settings c result now later (
            rw (same e)
              (and-true (is_processing q.status) (is_lease c.lease_id q.lease_id) held).0))
        h.deliveries.0 (found-snapshot c.id db.deliveries h.deliveries.1 found),
    Distinct-update_where _ _ (λ x. refl) db.deliveries h.deliveries.1,
  )

  finish_queued-IsValid :
      (o : Option PushDelivery)
      → delivery_by_id db c.id ≡ o
      → IsValid attempts (finish_queued settings c result now later o db)
  unfolding finish_queued
  finish_queued-IsValid none found = h
  finish_queued-IsValid (some q) found = elim (Bool-cases (holds_lease c q)) [
    | inr lost ↦ rw lost h
    | inl held ↦ rw held (
        if-split (IsValid attempts) (not result.succeeded && result.invalidate_device)
          (λ _.
            drop_device-IsValid c result now later (device_by_id db c.device_id) _
              (record { deliveries = finish_row-IsValid found held }))
          (λ _. record { deliveries = finish_row-IsValid found held }))
  ]

  pub finish_delivery-IsValid : IsValid attempts (finish_delivery settings c result now later db)
  unfolding finish_delivery
  finish_delivery-IsValid = finish_queued-IsValid (delivery_by_id db c.id) refl
