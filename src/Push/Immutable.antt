-- ===== src/Push/Immutable.antt =====
-- No transaction of app/services/push.py changes a delivery that is sent, failed or cancelled.
use fofu_backend.Base.{
  Result, ok, err, ℕ, Uuid, Time, String, ◌≡◌, refl, inl, inr, ◌⊎◌, Bool, true, ◌&&◌, ◌||◌, not,
  Option, none, some, List, arith, ◌==◌, if-split, find, find-append, find-delete_where, All,
  All-map, All-find, is_none, is_empty, delete_where, Bool-cases, select,
}
use fofu_backend.RateLimit.Bucket.{SlidingWindowLimiter, Outcome, admitted, limited, check}
use fofu_backend.Push.Rows.{
  Db, PushDevice, PushDelivery, Settings, is_terminal, delivery_by_id, same_environment,
}
use fofu_backend.Push.Cancel.{
  deactivate_devices, unregister_device, is_registered, cancel_expired_session_deliveries, cancel,
}
use fofu_backend.Push.Register.{
  PushError, Request, retire_obsolete, retire_stale, drop_rebound, bind_target, rebind,
  register_checked, register_for, register_device, configured_topic, first_of_two,
  installation_device, token_device,
}
use fofu_backend.Push.Enqueue.{enqueue_message_notifications}
use fofu_backend.Push.Claim.{
  is_available, exhaust, fail_exhausted, before_claim, claim_push_deliveries,
}
use fofu_backend.Push.Finish.{finish_delivery, purge_terminal_push_deliveries, purged_ids}
use fofu_backend.Push.Keys.{find-update_where_miss, Distinct}
use fofu_backend.Push.Valid.{IsValid, cancel_device_deliveries-IsValid, deactivate_devices-IsValid}
use fofu_backend.Push.Due.{Row, IsDue, IsOtherRow}
use fofu_backend.Push.Claims.{lease_rows_miss, selected}
use fofu_backend.Push.Terminal.{
  IsKept, found_delete, cancel-IsKept, unregister_each-IsKept, deactivate-IsKept,
  finish_queued-IsKept,
}
use fofu_backend.Push.Steps.{
  Step, register, unregister, deactivate, enqueue, claim, finish, purge, elsewhere,
}

delete-IsKept :
    (i : Uuid) (q : PushDelivery) (p : PushDelivery → Bool) (qs : List PushDelivery)
    → Distinct qs
    → IsKept i q qs
    → IsKept i q (delete_where p qs)
delete-IsKept i q p qs d (inl gone) =
    inl (find-delete_where (λ (x : PushDelivery). x.id == i) p qs gone)
delete-IsKept i q p qs d (inr found) = found_delete i p qs d found

module _ (i : Uuid) (q : PushDelivery) (terminal : is_terminal q.status ≡ true) where
  bind_target-IsKept :
      (topic : String) (r : Request) (t : Option PushDevice) (db : Db)
      → IsKept i q db.deliveries
      → IsKept i q (bind_target topic r t db).0.deliveries
  unfolding bind_target
  bind_target-IsKept topic r none db h = h
  bind_target-IsKept topic r (some t) db h =
      if-split (λ (x : Db). IsKept i q x.deliveries)
        (t.user_id == r.user.id && t.auth_session_id == r.session.id) (λ _. h)
        (λ _. cancel-IsKept i q terminal _ "device_rebound" r.later db.deliveries h)

  retire-IsKept :
      (topic : String) (r : Request) (db : Db)
      → IsKept i q db.deliveries
      → IsKept i q (retire_stale topic r (retire_obsolete topic r db)).deliveries
  unfolding retire_obsolete retire_stale deactivate_devices
  retire-IsKept topic r db h =
      cancel-IsKept i q terminal _ "session_inactive" r.now _
        (cancel-IsKept i q terminal _ "configuration_changed" r.now db.deliveries h)

retire-IsValid :
    {attempts : ℕ} (topic : String) (r : Request) (db : Db)
    → IsValid attempts db
    → IsValid attempts (retire_stale topic r (retire_obsolete topic r db))
unfolding retire_obsolete retire_stale
retire-IsValid topic r db v =
    deactivate_devices-IsValid _ "session_inactive" r.now _
      (deactivate_devices-IsValid _ "configuration_changed" r.now db v)

module _ {attempts : ℕ} (i : Uuid) (q : PushDelivery) (terminal : is_terminal q.status ≡ true) where
  drop_rebound-IsKept :
      (r : Request) (t d : Option PushDevice) (db : Db)
      → IsValid attempts db
      → IsKept i q db.deliveries
      → IsKept i q (drop_rebound r t d db).deliveries
  unfolding drop_rebound
  drop_rebound-IsKept r (some t) (some d) db v h =
      if-split (λ (x : Db). IsKept i q x.deliveries) (t.id == d.id) (λ _. h)
        (λ _.
          delete-IsKept i q _ _
            (cancel_device_deliveries-IsValid d.id "installation_rebound" none r.later db
              v).deliveries.1
            (cancel-IsKept i q terminal _ "installation_rebound" r.later db.deliveries h))
  drop_rebound-IsKept r (some t) none db v h = h
  drop_rebound-IsKept r none d db v h = h

  rebind-IsKept :
      (topic : String) (settings : Settings) (r : Request) (before db : Db)
      → IsKept i q before.deliveries
      → IsValid attempts db
      → IsKept i q db.deliveries
      → IsKept i q (rebind topic settings r before db).0.deliveries
  unfolding rebind
  rebind-IsKept topic settings r before db hb v h = ground (
    arith,
    hb,
    bind_target-IsKept i q terminal topic r
        (first_of_two (token_device topic r db) (installation_device topic r db))
        (drop_rebound r (token_device topic r db) (installation_device topic r db) db)
        (drop_rebound-IsKept r (token_device topic r db) (installation_device topic r db) db v h),
  )

  register_checked-IsKept :
      (settings : Settings) (topic : String) (r : Request) (db : Db)
      (o : SlidingWindowLimiter × Outcome)
      → IsValid attempts db
      → IsKept i q db.deliveries
      → IsKept i q (register_checked settings topic r db o).1.deliveries
  unfolding register_checked
  register_checked-IsKept settings topic r db (l, limited w) v h = h
  register_checked-IsKept settings topic r db (l, admitted) v h =
      if-split
        (λ (x : SlidingWindowLimiter × Db × Result PushError PushDevice). IsKept i q x.1.deliveries)
        (not (same_environment r.payload.environment settings.apns_environment)) (λ _. h)
        (λ _.
          rebind-IsKept topic settings r db (retire_stale topic r (retire_obsolete topic r db)) h
            (retire-IsValid topic r db v) (retire-IsKept i q terminal topic r db h))

  register_for-IsKept :
      (settings : Settings) (limiter : SlidingWindowLimiter) (key : String) (tick : Time)
      (r : Request) (db : Db) (topic : Result PushError String)
      → IsValid attempts db
      → IsKept i q db.deliveries
      → IsKept i q (register_for settings limiter key tick r db topic).1.deliveries
  unfolding register_for
  register_for-IsKept settings limiter key tick r db (err e) v h = h
  register_for-IsKept settings limiter key tick r db (ok topic) v h =
      ground (arith, h, register_checked-IsKept settings topic r db (check limiter key tick) v h)

-- A row that the claim selects is not terminal.
other_rows :
    (settings : Settings) (db : Db) (now : Time) (qs : List PushDelivery) (q : PushDelivery)
    (rows : List Row)
    → is_terminal q.status ≡ true
    → find (λ (x : PushDelivery). x.id == q.id) qs ≡ some q
    → All (IsDue settings db now qs) rows
    → All (IsOtherRow q) rows
other_rows settings db now qs q rows terminal found due =
    All-map (IsDue settings db now qs) (IsOtherRow q) rows
      (λ r d. other r d.available (
        All-find (λ (p : PushDelivery). (p.id == r.0.id) ≡ true → p ≡ r.0)
          (λ (x : PushDelivery). x.id == q.id) qs d.stored.0 found))
      due
  where
    other :
        (r : Row)
        → is_available settings.push_delivery_max_attempts now r.0 ≡ true
        → ((q.id == r.0.id) ≡ true → q ≡ r.0)
        → IsOtherRow q r
    other r available same = elim (Bool-cases (r.0.id == q.id)) [
      | inr ne ↦ ne
      | inl eq ↦ absurd (ground (arith, same (ground arith)))
    ]

claim-IsKept :
    (settings : Settings) (now later : Time) (locked : Uuid → Bool) (new_id : ℕ → Uuid) (db : Db)
    (q : PushDelivery)
    → IsValid settings.push_delivery_max_attempts db
    → is_terminal q.status ≡ true
    → delivery_by_id db q.id ≡ some q
    → delivery_by_id (claim_push_deliveries settings now later locked new_id db).0 q.id ≡ some q
unfolding claim_push_deliveries delivery_by_id
claim-IsKept settings now later locked new_id db q v terminal found =
    lease_rows_miss new_id now _ later 0 _ _ q
      (other_rows settings (before_claim settings now db) now _ q _ terminal before
        (selected settings now later locked new_id db v))
      before refl
  where
    before :
        find (λ (x : PushDelivery). x.id == q.id) (before_claim settings now db).deliveries ≡ some q
    before =
        unfold before_claim cancel_expired_session_deliveries fail_exhausted in
        find-update_where_miss q.id _ (exhaust now) _ (λ x. refl)
          (find-update_where_miss q.id _ (cancel "session_inactive" now) db.deliveries (λ x. refl)
            found (ground arith))
          (ground arith)

-- From a valid outbox, no transaction changes a delivery that is sent, failed or cancelled, in any
-- of its columns: afterwards it is as it was, or its row has been deleted.
pub Step-terminal :
    {settings : Settings} {t u : Db} (q : PushDelivery)
    → Step settings t u
    → IsValid settings.push_delivery_max_attempts t
    → is_terminal q.status ≡ true
    → delivery_by_id t q.id ≡ some q
    → (delivery_by_id u q.id ≡ none) ⊎ (delivery_by_id u q.id ≡ some q)
unfolding delivery_by_id
Step-terminal {settings} q (register limiter key tick r db) v h found =
    unfold register_device in
    register_for-IsKept q.id q h settings limiter key tick r db (configured_topic settings) v
      (inr found)
Step-terminal q (unregister user_id installation_id now later db) v h found =
    unfold unregister_device in
    unregister_each-IsKept q.id q h (select (is_registered user_id installation_id) db.devices) now
      later db (inr found)
Step-terminal q (deactivate session_id user_id reason now db) v h found =
    deactivate-IsKept q.id q h session_id user_id reason now db (inr found)
Step-terminal {settings} q (enqueue message now new_id db distinct) v h found =
    unfold enqueue_message_notifications in
    if-split (λ (r : Db × ℕ). IsKept q.id q r.0.deliveries)
      (not settings.apns_enabled || is_none settings.apns_bundle_id) (λ _. inr found)
      (λ _. inr (find-append (λ (x : PushDelivery). x.id == q.id) db.deliveries _ found))
Step-terminal {settings} q (claim now later locked new_id db) v h found =
    inr (claim-IsKept settings now later locked new_id db q v h found)
Step-terminal {settings} q (finish c result now later db) v h found =
    unfold finish_delivery in
    finish_queued-IsKept q.id q h settings c result now later db (delivery_by_id db c.id) refl found
Step-terminal {settings} q (purge now batch_size db) v h found =
    unfold purge_terminal_push_deliveries in
    if-split (λ (r : Db × ℕ). IsKept q.id q r.0.deliveries)
      (is_empty (purged_ids settings now batch_size db)) (λ _. inr found)
      (λ _. delete-IsKept q.id q _ db.deliveries v.deliveries.1 (inr found))
Step-terminal q (elsewhere users sessions participants db) v h found = inr found
