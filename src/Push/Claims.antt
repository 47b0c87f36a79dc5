-- ===== src/Push/Claims.antt =====
-- What `claim_push_deliveries` of app/services/push.py leaves in the outbox and hands to the worker.
use fofu_backend.Base.{
  ℕ, suc, ◌+◌, ◌≤◌, Uuid, Time, ◌≡◌, refl, Bool, true, some, List, [], ◌∷◌, arith, ◌==◌, ==_refl,
  eq_iff, All, All-map, All-map₂, find, update_where, length, length-take-le,
  All-update_where_given, ap,
}
use fofu_backend.Push.Rows.{Db, PushDevice, PushDelivery, Settings}
use fofu_backend.Push.Claim.{
  ClaimedDelivery, is_available, is_deliverable, lease, lease_rows, claim_of, claims_of,
  before_claim, claimed_rows, claim_push_deliveries, is_current_row, claim_is_current,
}
use fofu_backend.Push.Invariant.{IsWellFormed, lease-IsWellFormed}
use fofu_backend.Push.Keys.{
  Distinct-update_where, IsSnapshot, IsSnapshot-update, find-update_where_miss,
  find-update_where_hit,
}
use fofu_backend.Push.Valid.{IsValidTable, IsValid, cancel_expired-IsValid, fail_exhausted-IsValid}
use fofu_backend.Push.Due.{
  Row, IsDue, IsOtherRow, DistinctRows, claimed_rows-IsDue, claimed_rows-Distinct,
}

abbrev pub by_id : Uuid → PushDelivery → Bool
by_id i x = x.id == i

abbrev IsSnapshotRow : ℕ → Time → List PushDelivery → Row → Type 0
IsSnapshotRow attempts now qs r = (is_available attempts now r.0 ≡ true) × IsSnapshot qs r.0

module _ (new_id : ℕ → Uuid) (now until later : Time) where
  lease_rows-IsValid :
      (attempts n : ℕ) (rows : List Row) (qs : List PushDelivery)
      → All (IsSnapshotRow attempts now qs) rows
      → DistinctRows rows
      → IsValidTable attempts qs
      → IsValidTable attempts (lease_rows new_id n until later rows qs)
  unfolding lease_rows
  lease_rows-IsValid attempts n [] qs due distinct h = h
  lease_rows-IsValid attempts n (r ∷ rows) qs due distinct h =
      lease_rows-IsValid attempts (n + 1) rows
        (update_where (by_id r.0.id) (lease (new_id n) until later) qs)
        (All-map₂ (IsSnapshotRow attempts now qs) (IsOtherRow r.0) (IsSnapshotRow attempts now _)
          rows
          (λ s d o.
            (d.0, IsSnapshot-update r.0 s.0 (lease (new_id n) until later) qs (λ x. refl) o d.1))
          due.1 distinct.0)
        distinct.1
        (
          All-update_where_given (IsWellFormed attempts) (λ p. (p.id == r.0.id) ≡ true → p ≡ r.0)
              (by_id r.0.id) (lease (new_id n) until later) qs
              (λ x ok same e.
                lease-IsWellFormed ok (new_id n) until now later (rw (same e) due.0.0))
              h.0 due.0.1,
          Distinct-update_where _ _ (λ x. refl) qs h.1,
        )

  -- The loop leaves a delivery alone that is in none of its rows.
  pub lease_rows_miss :
      (n : ℕ) (rows : List Row) (qs : List PushDelivery) (q : PushDelivery)
      → All (IsOtherRow q) rows
      → {p : PushDelivery} → find (by_id q.id) qs ≡ some p
      → p.id ≡ q.id
      → find (by_id q.id) (lease_rows new_id n until later rows qs) ≡ some p
  unfolding lease_rows
  lease_rows_miss n [] qs q other found same = found
  lease_rows_miss n (r ∷ rows) qs q other {p} found same =
      lease_rows_miss (n + 1) rows (update_where (by_id r.0.id) (lease (new_id n) until later) qs) q
        other.1
        (find-update_where_miss q.id (by_id r.0.id) (lease (new_id n) until later) qs (λ x. refl)
          found (ground (arith, other.0, same)))
        same

  -- Row by row, the delivery carries the lease of its turn.
  abbrev Leased : List PushDelivery → ℕ → List Row → Type 0
  Leased qs n [] = Unit
  Leased qs n (r ∷ rows) =
      (find (by_id r.0.id) qs ≡ some (lease (new_id n) until later r.0)) × Leased qs (n + 1) rows

  abbrev IsFoundRow : List PushDelivery → Row → Type 0
  IsFoundRow qs r = find (by_id r.0.id) qs ≡ some r.0

  lease_rows-Leased :
      (n : ℕ) (rows : List Row) (qs : List PushDelivery)
      → All (IsFoundRow qs) rows
      → DistinctRows rows
      → Leased (lease_rows new_id n until later rows qs) n rows
  unfolding lease_rows
  lease_rows-Leased n [] qs found distinct = tt
  lease_rows-Leased n (r ∷ rows) qs found distinct = (
    lease_rows_miss (n + 1) rows _ r.0 distinct.0
        (find-update_where_hit r.0.id (by_id r.0.id) (lease (new_id n) until later) qs (λ x. refl)
          found.0 (==_refl r.0.id))
        refl,
    lease_rows-Leased (n + 1) rows (update_where (by_id r.0.id) (lease (new_id n) until later) qs)
        (All-map₂ (IsFoundRow qs) (IsOtherRow r.0) (IsFoundRow _) rows
          (λ s f o.
            find-update_where_miss s.0.id (by_id r.0.id) (lease (new_id n) until later) qs
              (λ x. refl) f o)
          found.1 distinct.0)
        distinct.1,
  )

  module _ (settings : Settings) (db : Db) (qs : List PushDelivery) where
    deliverable-current :
        (n : ℕ) (q : PushDelivery) (d : PushDevice)
        → is_deliverable settings db now q d ≡ true
        → is_current_row
            (record db { deliveries = qs })
            now
            (claim_of (new_id n) q d)
            (lease (new_id n) until later q)
            (some d)
          ≡ true
    unfolding is_current_row is_deliverable
    deliverable-current n q d h = ground (arith, eq_iff d.device_token d.device_token)

    row-current :
        (n : ℕ) (r : Row)
        → IsDue settings db now db.deliveries r
        → find (by_id r.0.id) qs ≡ some (lease (new_id n) until later r.0)
        → claim_is_current (record db { deliveries = qs }) now (claim_of (new_id n) r.0 r.1) ≡ true
    unfolding claim_is_current
    row-current n r due leased =
        rw (leased, claim_is_current, due.device) (deliverable-current n r.0 r.1 due.deliverable)

    claims-current :
        (n : ℕ) (rows : List Row)
        → All (IsDue settings db now db.deliveries) rows
        → Leased qs n rows
        → All
            (λ c. claim_is_current (record db { deliveries = qs }) now c ≡ true)
            (claims_of new_id n rows)
    unfolding claims_of
    claims-current n [] due leased = tt
    claims-current n (r ∷ rows) due leased =
        (row-current n r due.0 leased.0, claims-current (n + 1) rows due.1 leased.1)

module _ (new_id : ℕ → Uuid) where
  length-claims_of : (n : ℕ) (rows : List Row) → length (claims_of new_id n rows) ≡ length rows
  unfolding claims_of
  length-claims_of n [] = refl
  length-claims_of n (r ∷ rows) = ap suc (length-claims_of (n + 1) rows)

  -- The attempts that a claim records stay within the limit.
  claims-attempts :
      (attempts : ℕ) (now : Time) (n : ℕ) (qs : List PushDelivery) (rows : List Row)
      → All (IsSnapshotRow attempts now qs) rows
      → All
          (λ (c : ClaimedDelivery). (1 ≤ c.attempt_count) × (c.attempt_count ≤ attempts))
          (claims_of new_id n rows)
  unfolding claims_of
  claims-attempts attempts now n qs [] h = tt
  claims-attempts attempts now n qs (r ∷ rows) h =
      ((omega arith, ground (arith, h.0.0)), claims-attempts attempts now (n + 1) qs rows h.1)

module _ (settings : Settings) (now later : Time) (locked : Uuid → Bool) (new_id : ℕ → Uuid)
    (db : Db) (valid : IsValid settings.push_delivery_max_attempts db) where
  pub before_claim-IsValid :
      IsValid settings.push_delivery_max_attempts (before_claim settings now db)
  unfolding before_claim
  before_claim-IsValid = fail_exhausted-IsValid now _ (cancel_expired-IsValid now db valid)

  pub selected :
      All
        (IsDue settings
          (before_claim settings now db)
          now
          (before_claim settings now db).deliveries)
        (claimed_rows settings now locked (before_claim settings now db))
  selected = claimed_rows-IsDue settings now locked _ before_claim-IsValid.deliveries.1

  selected-Distinct : DistinctRows (claimed_rows settings now locked (before_claim settings now db))
  selected-Distinct = claimed_rows-Distinct settings now locked _ before_claim-IsValid.deliveries.1

  selected-snapshots :
      All
        (IsSnapshotRow settings.push_delivery_max_attempts now
          (before_claim settings now db).deliveries)
        (claimed_rows settings now locked (before_claim settings now db))
  selected-snapshots = All-map _ _ _ (λ r d. (d.available, d.stored.0)) selected

  -- From a valid outbox the claim makes a valid outbox.
  pub claim-IsValid :
      IsValid settings.push_delivery_max_attempts
        (claim_push_deliveries settings now later locked new_id db).0
  unfolding claim_push_deliveries
  claim-IsValid = record {
    deliveries =
        lease_rows-IsValid new_id now _ later settings.push_delivery_max_attempts 0 _ _
          selected-snapshots selected-Distinct before_claim-IsValid.deliveries;
  }

  -- From a valid outbox, every delivery that the claim hands out is current in the tables that it
  -- leaves, read at the same time, and its attempt is within the limit; no more than a batch is
  -- handed out.
  pub claim-current :
      All
        (λ c.
          claim_is_current (claim_push_deliveries settings now later locked new_id db).0 now c
          ≡ true)
        (claim_push_deliveries settings now later locked new_id db).1
      × All
          (λ c. (1 ≤ c.attempt_count) × (c.attempt_count ≤ settings.push_delivery_max_attempts))
          (claim_push_deliveries settings now later locked new_id db).1
      × (length (claim_push_deliveries settings now later locked new_id db).1
          ≤ settings.push_worker_batch_size)
  unfolding claim_push_deliveries
  claim-current = (
    claims-current new_id now _ later settings (before_claim settings now db) _ 0 _ selected (
        lease_rows-Leased new_id now _ later 0 _ _ (All-map _ _ _ (λ r d. d.stored.1) selected)
          selected-Distinct),
    claims-attempts new_id settings.push_delivery_max_attempts now 0 _ _ selected-snapshots,
    rw length-claims_of (unfold claimed_rows in length-take-le settings.push_worker_batch_size _),
  )
