-- ===== src/Push/Keys.antt =====
-- The primary key of the outbox: ids stay distinct, and an update by id reaches one row.
use fofu_backend.Base.{
  Uuid, ◌≡◌, refl, Bool, true, false, some, List, [], ◌∷◌, arith, ◌==◌, find, update_where,
  delete_where, find-update_where, All, All-map₂, ==_refl, All-delete_where, ◌∙◌, if◌then◌else◌,
  if-split,
}
use fofu_backend.Push.Rows.{PushDelivery}

-- No other row has the id of `q`.
abbrev pub IsOther : PushDelivery → PushDelivery → Type 0
IsOther q p = (p.id == q.id) ≡ false

abbrev pub Distinct : List PushDelivery → Type 0
Distinct [] = Unit
Distinct (q ∷ qs) = All (IsOther q) qs × Distinct qs

module _ (p : PushDelivery → Bool) (f : PushDelivery → PushDelivery)
    (keep : (q : PushDelivery) → (f q).id ≡ q.id) where
  All-IsOther-update :
      (q q' : PushDelivery) (qs : List PushDelivery)
      → q'.id ≡ q.id
      → All (IsOther q) qs
      → All (IsOther q') (update_where p f qs)
  unfolding update_where
  All-IsOther-update q q' [] e h = tt
  All-IsOther-update q q' (x ∷ qs) e h = (
    if-split (IsOther q') (p x) (λ _. rw (keep x, e) h.0) (λ _. rw e h.0),
    All-IsOther-update q q' qs e h.1,
  )

  pub Distinct-update_where :
      (qs : List PushDelivery) → Distinct qs → Distinct (update_where p f qs)
  unfolding update_where
  Distinct-update_where [] h = tt
  Distinct-update_where (x ∷ qs) h = (
    All-IsOther-update x (if p x then f x else x) qs
        (if-split (λ (y : PushDelivery). y.id ≡ x.id) (p x) (λ _. keep x) (λ _. refl)) h.0,
    Distinct-update_where qs h.1,
  )

pub Distinct-delete_where :
    (p : PushDelivery → Bool) (qs : List PushDelivery) → Distinct qs → Distinct (delete_where p qs)
unfolding delete_where
Distinct-delete_where p [] h = tt
Distinct-delete_where p (x ∷ qs) h =
    let rest = Distinct-delete_where p qs h.1 in
    if-split Distinct (p x) (λ _. rest) (λ _. (All-delete_where (IsOther x) p qs h.0, rest))

-- Whatever row has the id of `q` is `q`.
abbrev pub IsSnapshot : List PushDelivery → PushDelivery → Type 0
IsSnapshot qs q = All (λ p. (p.id == q.id) ≡ true → p ≡ q) qs

Distinct-IsSnapshot_tail :
    (x : PushDelivery) (qs rs : List PushDelivery)
    → All (IsOther x) qs
    → All (IsSnapshot rs) qs
    → All (IsSnapshot (x ∷ rs)) qs
Distinct-IsSnapshot_tail x [] rs h k = tt
Distinct-IsSnapshot_tail x (q ∷ qs) rs h k =
    ((λ e. absurd (ground arith), k.0), Distinct-IsSnapshot_tail x qs rs h.1 k.1)

IsOther-IsSnapshot :
    (x : PushDelivery) (qs : List PushDelivery) → All (IsOther x) qs → IsSnapshot qs x
IsOther-IsSnapshot x [] h = tt
IsOther-IsSnapshot x (q ∷ qs) h = (λ e. absurd (ground arith), IsOther-IsSnapshot x qs h.1)

pub Distinct-IsSnapshot : (qs : List PushDelivery) → Distinct qs → All (IsSnapshot qs) qs
Distinct-IsSnapshot [] h = tt
Distinct-IsSnapshot (x ∷ qs) h = (
  (λ e. refl, IsOther-IsSnapshot x qs h.0),
  Distinct-IsSnapshot_tail x qs qs h.0 (Distinct-IsSnapshot qs h.1),
)

-- A row that an update does not select is found as before.
pub find-update_where_miss :
    (i : Uuid) (p : PushDelivery → Bool) (f : PushDelivery → PushDelivery) (qs : List PushDelivery)
    {q : PushDelivery}
    → ((x : PushDelivery) → (f x).id ≡ x.id)
    → find (λ (x : PushDelivery). x.id == i) qs ≡ some q
    → p q ≡ false
    → find (λ (x : PushDelivery). x.id == i) (update_where p f qs) ≡ some q
find-update_where_miss i p f qs keep found miss =
    find-update_where (λ (x : PushDelivery). x.id == i) p f qs (λ x. rw (keep x))
    ∙ rw found (rw miss)

-- A row that an update selects is found as updated.
pub find-update_where_hit :
    (i : Uuid) (p : PushDelivery → Bool) (f : PushDelivery → PushDelivery) (qs : List PushDelivery)
    {q : PushDelivery}
    → ((x : PushDelivery) → (f x).id ≡ x.id)
    → find (λ (x : PushDelivery). x.id == i) qs ≡ some q
    → p q ≡ true
    → find (λ (x : PushDelivery). x.id == i) (update_where p f qs) ≡ some (f q)
find-update_where_hit i p f qs keep found hit =
    find-update_where (λ (x : PushDelivery). x.id == i) p f qs (λ x. rw (keep x))
    ∙ rw found (rw hit)

-- The row with the id of `q` is `q`, and a search finds it.
abbrev pub IsStored : List PushDelivery → PushDelivery → Type 0
IsStored qs q = IsSnapshot qs q × (find (λ (x : PushDelivery). x.id == q.id) qs ≡ some q)

found_behind :
    (x : PushDelivery) (qs rs : List PushDelivery)
    → All (IsOther x) qs
    → All (λ q. find (λ (y : PushDelivery). y.id == q.id) rs ≡ some q) qs
    → All (λ q. find (λ (y : PushDelivery). y.id == q.id) (x ∷ rs) ≡ some q) qs
unfolding find
found_behind x [] rs h k = tt
found_behind x (q ∷ qs) rs h k = (ground (arith, h.0, k.0), found_behind x qs rs h.1 k.1)

Distinct-found :
    (qs : List PushDelivery)
    → Distinct qs
    → All (λ q. find (λ (y : PushDelivery). y.id == q.id) qs ≡ some q) qs
Distinct-found [] h = tt
Distinct-found (x ∷ qs) h =
    (unfold find in rw (==_refl x.id), found_behind x qs qs h.0 (Distinct-found qs h.1))

pub Distinct-IsStored : (qs : List PushDelivery) → Distinct qs → All (IsStored qs) qs
Distinct-IsStored qs h =
    All-map₂ (IsSnapshot qs) (λ q. find (λ (y : PushDelivery). y.id == q.id) qs ≡ some q)
      (IsStored qs) qs (λ q s f. (s, f)) (Distinct-IsSnapshot qs h) (Distinct-found qs h)

-- An update of one row leaves the snapshots of the others.
pub IsSnapshot-update :
    (q r : PushDelivery) (f : PushDelivery → PushDelivery) (qs : List PushDelivery)
    → ((x : PushDelivery) → (f x).id ≡ x.id)
    → IsOther q r
    → IsSnapshot qs r
    → IsSnapshot (update_where (λ (x : PushDelivery). x.id == q.id) f qs) r
unfolding update_where
IsSnapshot-update q r f [] keep h k = tt
IsSnapshot-update q r f (x ∷ qs) keep h k = (
  if-split (λ (y : PushDelivery). (y.id == r.id) ≡ true → y ≡ r) (x.id == q.id)
      (λ e t. absurd (ground (arith, keep x))) (λ _. k.0),
  IsSnapshot-update q r f qs keep h k.1,
)
