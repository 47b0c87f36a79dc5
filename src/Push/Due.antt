-- ===== src/Push/Due.antt =====
-- The rows that `claim_push_deliveries` of app/services/push.py selects.
use fofu_backend.Base.{
  ℕ, zero, suc, Uuid, Time, ◌≡◌, refl, Bool, true, ◌&&◌, not, Option, none, some, List, [], ◌∷◌,
  arith, All, All-take, and-true, if-split, take,
}
use fofu_backend.Push.Rows.{Db, PushDevice, PushDelivery, Settings, device_by_id}
use fofu_backend.Push.Claim.{
  is_available, is_deliverable, comes_first, due_row, insert_row, insert_rows, due_rows,
  claimed_rows,
}
use fofu_backend.Push.Keys.{IsOther, Distinct, IsStored, Distinct-IsStored}

abbrev pub Row : Type 0
Row = PushDelivery × PushDevice

-- What a row of the query satisfies; `qs` are the deliveries of the tables.
pub record IsDue (settings : Settings) (db : Db) (now : Time) (qs : List PushDelivery) (r : Row)
    : Type 0 where
  pub available : is_available settings.push_delivery_max_attempts now r.0 ≡ true
  pub deliverable : is_deliverable settings db now r.0 r.1 ≡ true
  pub device : device_by_id db r.0.device_id ≡ some r.1
  pub stored : IsStored qs r.0

insert_row-All :
    (P : Row → Type 0) (r : Row) (rows : List Row) → P r → All P rows → All P (insert_row r rows)
unfolding insert_row
insert_row-All P r [] h k = (h, tt)
insert_row-All P r (s ∷ rows) h k =
    let rest = insert_row-All P r rows h k.1 in
    if-split (All P) (comes_first r.0 s.0) (λ _. (h, k)) (λ _. (k.0, rest))

abbrev pub IsOtherRow : PushDelivery → Row → Type 0
IsOtherRow q r = IsOther q r.0

-- No two rows are of one delivery.
abbrev pub DistinctRows : List Row → Type 0
DistinctRows [] = Unit
DistinctRows (r ∷ rows) = All (IsOtherRow r.0) rows × DistinctRows rows

IsOtherRow-flip : (a b : Row) → IsOtherRow a.0 b → IsOtherRow b.0 a
IsOtherRow-flip a b h = ground arith

insert_row-Distinct :
    (r : Row) (rows : List Row)
    → All (IsOtherRow r.0) rows
    → DistinctRows rows
    → DistinctRows (insert_row r rows)
unfolding insert_row
insert_row-Distinct r [] h k = (tt, tt)
insert_row-Distinct r (s ∷ rows) h k =
    let rest = insert_row-Distinct r rows h.1 k.1 in
    if-split DistinctRows (comes_first r.0 s.0) (λ _. (h, k))
      (λ _. (insert_row-All (IsOtherRow s.0) r rows (IsOtherRow-flip r s h.0) k.0, rest))

module _ (settings : Settings) (db : Db) (now : Time) (locked : Uuid → Bool) where
  due_row-IsDue :
      (qs : List PushDelivery) (q : PushDelivery) (d : Option PushDevice)
      → IsStored qs q
      → device_by_id db q.device_id ≡ d
      → All (IsDue settings db now qs) (due_row settings db now locked q d)
  unfolding due_row
  due_row-IsDue qs q none h e = tt
  due_row-IsDue qs q (some d) h e =
      if-split (All (IsDue settings db now qs))
        (is_available settings.push_delivery_max_attempts now q
          && (is_deliverable settings db now q d && not (locked q.id)))
        (λ t. (
          record {
            available = (and-true (is_available settings.push_delivery_max_attempts now q) _ t).0;
            deliverable =
                (and-true (is_deliverable settings db now q d) _
                  (and-true (is_available settings.push_delivery_max_attempts now q) _ t).1).0;
            device = e;
            stored = h;
          },
          tt,
        ))
        (λ _. tt)

  due_row-other :
      (x q : PushDelivery) (d : Option PushDevice)
      → IsOther x q
      → All (IsOtherRow x) (due_row settings db now locked q d)
  unfolding due_row
  due_row-other x q none h = tt
  due_row-other x q (some d) h =
      if-split (All (IsOtherRow x))
        (is_available settings.push_delivery_max_attempts now q
          && (is_deliverable settings db now q d && not (locked q.id)))
        (λ _. (h, tt)) (λ _. tt)

  insert_rows-All :
      (P : Row → Type 0) (rs rows : List Row) → All P rs → All P rows → All P (insert_rows rs rows)
  unfolding insert_rows
  insert_rows-All P [] rows h k = k
  insert_rows-All P (r ∷ rs) rows h k = insert_row-All P r _ h.0 (insert_rows-All P rs rows h.1 k)

  due_rows-IsDue :
      (all qs : List PushDelivery)
      → All (IsStored all) qs
      → All (IsDue settings db now all) (due_rows settings db now locked qs)
  unfolding due_rows
  due_rows-IsDue all [] h = tt
  due_rows-IsDue all (q ∷ qs) h =
      insert_rows-All (IsDue settings db now all)
        (due_row settings db now locked q (device_by_id db q.device_id)) _
        (due_row-IsDue all q (device_by_id db q.device_id) h.0 refl) (due_rows-IsDue all qs h.1)

  due_rows-other :
      (x : PushDelivery) (qs : List PushDelivery)
      → All (IsOther x) qs
      → All (IsOtherRow x) (due_rows settings db now locked qs)
  unfolding due_rows
  due_rows-other x [] h = tt
  due_rows-other x (q ∷ qs) h =
      insert_rows-All (IsOtherRow x)
        (due_row settings db now locked q (device_by_id db q.device_id)) _
        (due_row-other x q (device_by_id db q.device_id) h.0) (due_rows-other x qs h.1)

  -- At most one row comes of one delivery, and it is of that delivery.
  insert_due-Distinct :
      (q : PushDelivery) (d : Option PushDevice) (rows : List Row)
      → All (IsOtherRow q) rows
      → DistinctRows rows
      → DistinctRows (insert_rows (due_row settings db now locked q d) rows)
  unfolding due_row insert_rows
  insert_due-Distinct q none rows h k = k
  insert_due-Distinct q (some d) rows h k =
      if-split (λ rs. DistinctRows (insert_rows rs rows))
        (is_available settings.push_delivery_max_attempts now q
          && (is_deliverable settings db now q d && not (locked q.id)))
        (λ _. insert_row-Distinct (q, d) rows h k) (λ _. k)

  due_rows-Distinct :
      (qs : List PushDelivery) → Distinct qs → DistinctRows (due_rows settings db now locked qs)
  unfolding due_rows
  due_rows-Distinct [] h = tt
  due_rows-Distinct (q ∷ qs) h =
      insert_due-Distinct q (device_by_id db q.device_id) (due_rows settings db now locked qs)
        (due_rows-other q qs h.0) (due_rows-Distinct qs h.1)

DistinctRows-take : (n : ℕ) (rows : List Row) → DistinctRows rows → DistinctRows (take n rows)
DistinctRows-take zero rows h = tt
DistinctRows-take (suc n) [] h = tt
DistinctRows-take (suc n) (r ∷ rows) h =
    (All-take (IsOtherRow r.0) n rows h.0, DistinctRows-take n rows h.1)

module _ (settings : Settings) (now : Time) (locked : Uuid → Bool) (db : Db)
    (distinct : Distinct db.deliveries) where
  pub claimed_rows-IsDue :
      All (IsDue settings db now db.deliveries) (claimed_rows settings now locked db)
  unfolding claimed_rows
  claimed_rows-IsDue = All-take _ settings.push_worker_batch_size _ (
      due_rows-IsDue settings db now locked db.deliveries db.deliveries
        (Distinct-IsStored db.deliveries distinct))

  pub claimed_rows-Distinct : DistinctRows (claimed_rows settings now locked db)
  unfolding claimed_rows
  claimed_rows-Distinct =
      DistinctRows-take settings.push_worker_batch_size _
        (due_rows-Distinct settings db now locked db.deliveries distinct)
