-- ===== src/Push/Retire.antt =====
-- What taking devices out of service leaves behind in app/services/push.py.
use fofu_backend.Base.{
  ℕ, Uuid, Time, String, ◌≡◌, refl, inl, inr, sym, Bool, true, false, ◌&&◌, Option, List, [], ◌∷◌,
  arith, ==_refl, if-split, Bool-cases, any, select, update_where, All, All-intro, All-map,
  All-after_update, All-after_update_given, is_none, is_empty, length,
}
use fofu_backend.Push.Rows.{Db, PushDevice, PushDelivery, is_cancelable, member}
use fofu_backend.Push.Cancel.{
  cancel, invalidate, ids_of, is_bound, bound_devices, deactivate_session_devices,
}

-- The ids of the devices that a test selects contain the id of each such device.
member_cons : (x i : Uuid) (ids : List Uuid) → member x ids ≡ true → member x (i ∷ ids) ≡ true
unfolding any
member_cons x i ids h = ground arith

module _ (p : PushDevice → Bool) where
  abbrev IsCovered : List Uuid → PushDevice → Type 0
  IsCovered ids d = p d ≡ true → member d.id ids ≡ true

  IsCovered-cons :
      (b : Bool) (i : Uuid) (ids : List Uuid) (ds : List PushDevice)
      → All (IsCovered ids) ds
      → All (IsCovered (i ∷ ids)) ds
  IsCovered-cons b i ids [] h = tt
  IsCovered-cons b i ids (d ∷ ds) h =
      (λ e. member_cons d.id i ids (h.0 e), IsCovered-cons b i ids ds h.1)

  pub select-covers : (ds : List PushDevice) → All (IsCovered (ids_of (select p ds))) ds
  unfolding select
  select-covers [] = tt
  select-covers (d ∷ ds) =
      let rest = select-covers ds in
      if-split (λ chosen. All (IsCovered (ids_of chosen)) (d ∷ ds)) (p d)
        (λ hit. (
          λ e. unfold any in ground (arith, ==_refl d.id),
          IsCovered-cons true d.id (ids_of (select p ds)) ds rest,
        ))
        (λ miss. (λ e. absurd (ground arith), rest))

module _ (p : PushDevice → Bool) (reason : String) (now : Time) (ds : List PushDevice) where
  -- After the update of the selected devices, every active device fails the test.
  pub retired-devices :
      All
        (λ d. d.is_active ≡ true → p d ≡ false)
        (update_where
          (λ (d : PushDevice). member d.id (ids_of (select p ds)))
          (invalidate reason now)
          ds)
  retired-devices =
      All-after_update_given (λ (d : PushDevice). d.is_active ≡ true → p d ≡ false)
        (IsCovered p (ids_of (select p ds)))
        (λ (d : PushDevice). member d.id (ids_of (select p ds))) (invalidate reason now) ds
        (λ d hit active. cc)
        (λ d covered miss active. elim (Bool-cases (p d)) [
          | inl e ↦ absurd (ground (arith, covered e))
          | inr e ↦ e
        ])
        (select-covers p ds)

-- After the cancellation no delivery of the devices waits or is being sent.
pub cancelled-deliveries :
    (ids : List Uuid) (reason : String) (now : Time) (qs : List PushDelivery)
    → All
        (λ q. (is_cancelable q.status && member q.device_id ids) ≡ false)
        (update_where
          (λ (q : PushDelivery). is_cancelable q.status && member q.device_id ids)
          (cancel reason now)
          qs)
cancelled-deliveries ids reason now qs =
    All-after_update _ _ (cancel reason now) qs (λ q hit. refl) (λ q miss. miss)

no_member : (ids : List Uuid) (x : Uuid) → is_empty ids ≡ true → member x ids ≡ false
unfolding any
no_member [] x h = refl
no_member (i ∷ ids) x h = cc

none_selected :
    (p : PushDevice → Bool) (ds : List PushDevice)
    → is_empty (ids_of (select p ds)) ≡ true
    → All (λ d. p d ≡ false) ds
none_selected p ds h =
    All-map (IsCovered p (ids_of (select p ds))) (λ d. p d ≡ false) ds
      (λ d covered. elim (Bool-cases (p d)) [
        | inl e ↦ absurd (ground (arith, covered e, no_member (ids_of (select p ds)) d.id h))
        | inr e ↦ e
      ])
      (select-covers p ds)

length_empty : (ids : List Uuid) → is_empty ids ≡ true → length ids ≡ 0
length_empty [] e = refl
length_empty (x ∷ ids) e = absurd (ground (arith, e))

-- `deactivate_session_devices` with a session or a user given: afterwards no active device is bound
-- to it, no delivery of a device that was bound is waiting or being sent, and the result is the
-- number of the devices that were.
pub deactivate_complete :
    (session_id user_id : Option Uuid) (reason : String) (now : Time) (db : Db)
    → (is_none session_id && is_none user_id) ≡ false
    → let (db', n) = deactivate_session_devices session_id user_id reason now db in
      (n ≡ length (bound_devices session_id user_id db))
      × All (λ d. is_bound session_id user_id d ≡ false) db'.devices
      × All
          (λ q.
            (is_cancelable q.status && member q.device_id (bound_devices session_id user_id db))
            ≡ false)
          db'.deliveries
unfolding deactivate_session_devices
deactivate_complete session_id user_id reason now db h =
    let ids = bound_devices session_id user_id db in
    rw h (
      if-split
        (λ (r : Db × ℕ).
          (r.1 ≡ length ids)
          × All (λ d. is_bound session_id user_id d ≡ false) r.0.devices
          × All (λ q. (is_cancelable q.status && member q.device_id ids) ≡ false) r.0.deliveries)
        (is_empty ids)
        (λ empty. (
          sym (length_empty ids empty),
          none_selected (is_bound session_id user_id) db.devices empty,
          All-intro _ db.deliveries (λ q. rw (no_member ids q.device_id empty) (ground arith)),
        ))
        (λ some_bound. (
          refl,
          All-map _ _ _ (λ d retired. ground (arith, retired))
              (retired-devices (is_bound session_id user_id) reason now db.devices),
          cancelled-deliveries ids reason now db.deliveries,
        )))
