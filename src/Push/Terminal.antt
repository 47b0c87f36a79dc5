-- ===== src/Push/Terminal.antt =====
-- A delivery of app/services/push.py that is sent, failed or cancelled never changes again.
use fofu_backend.Base.{
  ℕ, Uuid, Time, String, ◌≡◌, refl, inl, inr, ◌⊎◌, Bool, true, false, ◌&&◌, not, Option, none, some,
  List, [], ◌∷◌, arith, ◌==◌, ==_iff, if-split, Bool-cases, find, find-passes, find-update_where,
  find-delete_where, ◌∙◌, sym, subst, some_inj, update_where, delete_where, All, is_none, is_empty,
}
use fofu_backend.Push.Rows.{
  Db, PushDevice, PushDelivery, Settings, is_cancelable, is_terminal, is_processing, delivery_by_id,
  device_by_id,
}
use fofu_backend.Push.Cancel.{cancel, unregister_each, bound_devices, deactivate_session_devices}
use fofu_backend.Push.Claim.{ClaimedDelivery}
use fofu_backend.Push.Finish.{
  ApnsResult, finish, finish_queued, drop_device, covers_device, holds_lease,
}
use fofu_backend.Push.Keys.{IsOther, Distinct, find-update_where_miss}

-- The row with the id is gone, or is still `q`.
abbrev pub IsKept : Uuid → PushDelivery → List PushDelivery → Type 0
IsKept i q qs =
    (find (λ (x : PushDelivery). x.id == i) qs ≡ none)
    ⊎ (find (λ (x : PushDelivery). x.id == i) qs ≡ some q)

gone_update :
    (i : Uuid) (p : PushDelivery → Bool) (f : PushDelivery → PushDelivery) (qs : List PushDelivery)
    → ((x : PushDelivery) → (f x).id ≡ x.id)
    → find (λ (x : PushDelivery). x.id == i) qs ≡ none
    → find (λ (x : PushDelivery). x.id == i) (update_where p f qs) ≡ none
gone_update i p f qs keep gone =
    find-update_where (λ (x : PushDelivery). x.id == i) p f qs (λ x. rw (keep x)) ∙ rw gone

others_gone :
    (i : Uuid) (x : PushDelivery) (qs : List PushDelivery)
    → x.id ≡ i
    → All (IsOther x) qs
    → find (λ (y : PushDelivery). y.id == i) qs ≡ none
unfolding find
others_gone i x [] e h = refl
others_gone i x (y ∷ qs) e h = ground (arith, h.0, others_gone i x qs e h.1)

pub found_delete :
    (i : Uuid) (p : PushDelivery → Bool) (qs : List PushDelivery) {q : PushDelivery}
    → Distinct qs
    → find (λ (x : PushDelivery). x.id == i) qs ≡ some q
    → IsKept i q (delete_where p qs)
unfolding find delete_where
found_delete i p [] d h = inl refl
found_delete i p (x ∷ qs) {q} d h = ground (
  arith,
  found_delete i p qs {q = q} d.1,
  find-delete_where (λ (y : PushDelivery). y.id == i) p qs,
  others_gone i x qs,
  d.0,
)

module _ (i : Uuid) (q : PushDelivery) (terminal : is_terminal q.status ≡ true) where
  pub update-IsKept :
      (p : PushDelivery → Bool) (f : PushDelivery → PushDelivery) (qs : List PushDelivery)
      → ((x : PushDelivery) → (f x).id ≡ x.id)
      → p q ≡ false
      → IsKept i q qs
      → IsKept i q (update_where p f qs)
  update-IsKept p f qs keep miss (inl gone) = inl (gone_update i p f qs keep gone)
  update-IsKept p f qs keep miss (inr found) = inr (find-update_where_miss i p f qs keep found miss)

  pub cancel-IsKept :
      (p : PushDelivery → Bool) (reason : String) (now : Time) (qs : List PushDelivery)
      → IsKept i q qs
      → IsKept i q (update_where (λ x. is_cancelable x.status && p x) (cancel reason now) qs)
  cancel-IsKept p reason now qs h =
      update-IsKept _ (cancel reason now) qs (λ x. refl) (ground arith) h

  pub unregister_each-IsKept :
      (ds : List PushDevice) (now later : Time) (db : Db)
      → IsKept i q db.deliveries
      → IsKept i q (unregister_each ds now later db).deliveries
  unfolding unregister_each
  unregister_each-IsKept [] now later db h = h
  unregister_each-IsKept (d ∷ ds) now later db h =
      unregister_each-IsKept ds now later _ (cancel-IsKept _ "user_unregistered" later _ h)

  pub deactivate-IsKept :
      (session_id user_id : Option Uuid) (reason : String) (now : Time) (db : Db)
      → IsKept i q db.deliveries
      → IsKept i q (deactivate_session_devices session_id user_id reason now db).0.deliveries
  unfolding deactivate_session_devices
  deactivate-IsKept session_id user_id reason now db h =
      if-split (λ (r : Db × ℕ). IsKept i q r.0.deliveries) (is_none session_id && is_none user_id)
        (λ _. h)
        (λ _.
          if-split (λ (r : Db × ℕ). IsKept i q r.0.deliveries)
            (is_empty (bound_devices session_id user_id db)) (λ _. h)
            (λ _. cancel-IsKept _ reason now _ h))

  drop_device-IsKept :
      (c : ClaimedDelivery) (result : ApnsResult) (now later : Time) (d : Option PushDevice)
      (db : Db)
      → IsKept i q db.deliveries
      → IsKept i q (drop_device c result now later d db).deliveries
  unfolding drop_device
  drop_device-IsKept c result now later none db h = h
  drop_device-IsKept c result now later (some d) db h =
      if-split (λ (r : Db). IsKept i q r.deliveries) (covers_device c result d)
        (λ _. cancel-IsKept _ _ later _ h) (λ _. h)

  -- A processing row has another id.
  other_id :
      (j : Uuid) (qs : List PushDelivery) {p : PushDelivery}
      → find (λ (x : PushDelivery). x.id == j) qs ≡ some p
      → find (λ (x : PushDelivery). x.id == i) qs ≡ some q
      → is_processing p.status ≡ true
      → (q.id == j) ≡ false
  other_id j qs {p} e h processing = elim (Bool-cases (q.id == j)) [
    | inr ne ↦ ne
    | inl eq ↦
        let j-eq-i : j ≡ i =
          sym ((==_iff q.id j).0 eq)
          ∙ (==_iff q.id i).0 (find-passes (λ (x : PushDelivery). x.id == i) qs h) in
        let same : p ≡ q =
          some_inj
            (sym (subst (λ k. find (λ (x : PushDelivery). x.id == k) qs ≡ some p) j-eq-i e) ∙ h) in
        absurd (ground (arith, same))
  ]

  pub finish_queued-IsKept :
      (settings : Settings) (c : ClaimedDelivery) (result : ApnsResult) (now later : Time) (db : Db)
      (o : Option PushDelivery)
      → delivery_by_id db c.id ≡ o
      → delivery_by_id db i ≡ some q
      → IsKept i q (finish_queued settings c result now later o db).deliveries
  unfolding finish_queued delivery_by_id finish
  finish_queued-IsKept settings c result now later db none e h = inr h
  finish_queued-IsKept settings c result now later db (some p) e h =
      if-split (λ (r : Db). IsKept i q r.deliveries) (not (holds_lease c p)) (λ _. inr h)
        (λ held.
          if-split (λ (r : Db). IsKept i q r.deliveries)
            (not result.succeeded && result.invalidate_device)
            (λ _.
              drop_device-IsKept c result now later (device_by_id db c.device_id) _ (finished held))
            (λ _. finished held))
    where
      finished :
          not (holds_lease c p) ≡ false
          → IsKept i q (
              update_where
                (λ (x : PushDelivery). x.id == c.id)
                (finish settings c result now later)
                db.deliveries)
      finished held =
          update-IsKept _ (finish settings c result now later) db.deliveries (λ x. refl)
            (other_id c.id db.deliveries e h (ground (arith, held))) (inr h)
