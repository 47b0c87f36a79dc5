-- ===== src/Push/Lease.antt =====
-- The lease of a claim in app/services/push.py: only its holder finishes a delivery, and only once.
use fofu_backend.Base.{
  Time, ◌≡◌, ◌≢◌, refl, ap, sym, inl, inr, Bool, true, ◌&&◌, not, Option, none, some, arith, ◌==◌,
  if-split, Bool-cases, find, find-passes, update_where,
}
use fofu_backend.Push.Rows.{Db, PushDevice, PushDelivery, Settings, delivery_by_id, device_by_id}
use fofu_backend.Push.Cancel.{cancel}
use fofu_backend.Push.Claim.{ClaimedDelivery, is_current_row, claim_is_current}
use fofu_backend.Push.Finish.{
  ApnsResult, finish, holds_lease, finish_queued, finish_delivery, drop_device, covers_device,
}
use fofu_backend.Push.Keys.{find-update_where_hit, find-update_where_miss}

-- The row of the claim is not leased to it: it is missing, not processing, or leased to another.
abbrev pub is_lost : ClaimedDelivery → Option PushDelivery → Bool
is_lost c none = true
is_lost c (some q) = not (holds_lease c q)

finish_queued_lost :
    (settings : Settings) (c : ClaimedDelivery) (result : ApnsResult) (now later : Time)
    (o : Option PushDelivery) (db : Db)
    → is_lost c o ≡ true
    → finish_queued settings c result now later o db ≡ db
unfolding finish_queued
finish_queued_lost settings c result now later none db h = refl
finish_queued_lost settings c result now later (some q) db h = rw h

finish_delivery_lost :
    (settings : Settings) (c : ClaimedDelivery) (result : ApnsResult) (now later : Time) (db : Db)
    → is_lost c (delivery_by_id db c.id) ≡ true
    → finish_delivery settings c result now later db ≡ db
unfolding finish_delivery
finish_delivery_lost settings c result now later db h =
    finish_queued_lost settings c result now later (delivery_by_id db c.id) db h

module _ (settings : Settings) (c : ClaimedDelivery) (result : ApnsResult) (now later : Time) where
  finish-lost : (q : PushDelivery) → is_lost c (some (finish settings c result now later q)) ≡ true
  unfolding finish
  finish-lost q = ground arith

  -- Dropping the device leaves the delivery of the claim itself alone.
  drop_device-row :
      (d : Option PushDevice) (db : Db) {q : PushDelivery}
      → delivery_by_id db c.id ≡ some q
      → delivery_by_id (drop_device c result now later d db) c.id ≡ some q
  unfolding drop_device delivery_by_id
  drop_device-row none db h = h
  drop_device-row (some d) db {q} h =
      if-split (λ (r : Db). find (λ (x : PushDelivery). x.id == c.id) r.deliveries ≡ some q)
        (covers_device c result d)
        (λ _.
          find-update_where_miss c.id _ (cancel _ later) db.deliveries (λ x. refl) h
            (ground (arith, find-passes (λ (x : PushDelivery). x.id == c.id) db.deliveries h)))
        (λ _. h)

  finish_queued-lost :
      (db : Db) (o : Option PushDelivery)
      → delivery_by_id db c.id ≡ o
      → is_lost c (delivery_by_id (finish_queued settings c result now later o db) c.id) ≡ true
  unfolding finish_queued
  finish_queued-lost db none e = rw e
  finish_queued-lost db (some q) e = elim (Bool-cases (holds_lease c q)) [
    | inr lost ↦ rw lost (rw e (rw lost))
    | inl held ↦ rw held (
        if-split (λ (r : Db). is_lost c (delivery_by_id r c.id) ≡ true)
          (not result.succeeded && result.invalidate_device)
          (λ _. rw (drop_device-row (device_by_id db c.device_id) _ (updated q e)) (finish-lost q))
          (λ _. rw (updated q e) (finish-lost q)))
  ]
    where
      updated :
          (q : PushDelivery)
          → delivery_by_id db c.id ≡ some q
          → delivery_by_id
              (record db {
                deliveries =
                    update_where
                      (λ (p : PushDelivery). p.id == c.id)
                      (finish settings c result now later)
                      db.deliveries;
              })
              c.id
            ≡ some (finish settings c result now later q)
      updated q e =
          unfold delivery_by_id finish in
          find-update_where_hit c.id (λ (p : PushDelivery). p.id == c.id)
            (finish settings c result now later) db.deliveries (λ x. refl) e
            (find-passes (λ (x : PushDelivery). x.id == c.id) db.deliveries e)

-- A claim is finished at most once: whatever the two results are, finishing it again changes nothing.
pub finish_delivery-once :
    (settings : Settings) (c : ClaimedDelivery) (first second : ApnsResult)
    (now later now' later' : Time) (db : Db)
    → finish_delivery settings c second now' later' (finish_delivery settings c first now later db)
      ≡ finish_delivery settings c first now later db
finish_delivery-once settings c first second now later now' later' db =
    finish_delivery_lost settings c second now' later' _ (
      unfold finish_delivery in
      finish_queued-lost settings c first now later db (delivery_by_id db c.id) refl)

current-lost :
    (db : Db) (clock : Time) (c old : ClaimedDelivery) (o : Option PushDelivery)
    → delivery_by_id db c.id ≡ o
    → claim_is_current db clock c ≡ true
    → old.lease_id ≢ c.lease_id
    → is_lost old o ≡ true
unfolding claim_is_current is_current_row
current-lost db clock c old none e h ne = refl
current-lost db clock c old (some q) e h ne = ground (arith, rw (e, claim_is_current) at h)

-- Once a delivery has been claimed again, and the new claim is current, a worker that still holds an
-- earlier claim of it, with another lease, cannot finish it: its call changes nothing.
pub finish-reclaimed :
    (settings : Settings) (c old : ClaimedDelivery) (result : ApnsResult) (clock now later : Time)
    (db : Db)
    → claim_is_current db clock c ≡ true
    → old.id ≡ c.id
    → old.lease_id ≢ c.lease_id
    → finish_delivery settings old result now later db ≡ db
finish-reclaimed settings c old result clock now later db current same other =
    finish_delivery_lost settings old result now later db (
      current-lost db clock c old (delivery_by_id db old.id) (ap (delivery_by_id db) (sym same))
        current other)
