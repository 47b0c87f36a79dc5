-- ===== src/Messaging/Staff.antt =====
-- The staff of a restaurant, active accounts and the scope of a guest, as `create_conversation` of
-- app/services/messaging.py reads them from the tables.
use fofu_backend.Base.{
  select, str_eq, eq_iff, Mem, any-Mem, find-Mem, find-passes, All-select_Mem, Bool-cases, inl, inr,
  ◌⊎◌, ◌≢◌, ap, Uuid, Time, ◌≡◌, refl, subst, Bool, true, false, ◌&&◌, Option, none, some, List, [],
  ◌∷◌, map, arith, ltb, ◌==◌, any, all, All, if-split,
}
use fofu_backend.Push.Rows.{
  User, Scope, full, guest, qr_guest, admin, ConversationParticipant, member,
}
use fofu_backend.Cart.Rows.{Restaurant}
use fofu_backend.Messaging.Rows.{RestaurantMembership, MessagingDb}
use fofu_backend.Messaging.Send.{same_id}
use fofu_backend.Messaging.Create.{
  ConversationCreate, is_qr_guest, is_staff, to_set, is_out_of_scope, with_id, restaurant_staff_ids,
  row_of, is_inactive_id, insert_id, sorted, new_participant,
}

module _ (P : Uuid → Type 0) where
  pub All-to_set : (ids : List Uuid) → All P ids → All P (to_set ids)
  unfolding to_set
  All-to_set [] h = tt
  All-to_set (i ∷ ids) h =
      let rest = All-to_set ids h.1 in
      if-split (All P) (member i (to_set ids)) (λ _. rest) (λ _. (h.0, rest))

  All-user_ids :
      (ms : List RestaurantMembership)
      → All (λ (m : RestaurantMembership). P m.user_id) ms
      → All P (map (λ m. m.user_id) ms)
  All-user_ids [] h = tt
  All-user_ids (m ∷ ms) h = (h.0, All-user_ids ms h.1)

  pub All-member : (i : Uuid) (ids : List Uuid) → All P ids → member i ids ≡ true → P i
  unfolding any
  All-member i [] h there = absurd (ground arith)
  All-member i (j ∷ ids) h there = elim (Bool-cases (j == i)) [
    | inl same ↦ subst P (ground (arith, same)) h.0
    | inr other ↦ All-member i ids h.1 (ground (arith, there, other))
  ]

  pub All-insert_id : (i : Uuid) (ids : List Uuid) → P i → All P ids → All P (insert_id i ids)
  unfolding insert_id
  All-insert_id i [] h k = (h, tt)
  All-insert_id i (j ∷ js) h k =
      let rest = All-insert_id i js h k.1 in
      if-split (All P) (ltb j i) (λ _. (k.0, rest)) (λ _. (h, k))

  pub All-sorted : (ids : List Uuid) → All P ids → All P (sorted ids)
  unfolding sorted
  All-sorted [] h = tt
  All-sorted (i ∷ ids) h = All-insert_id i (sorted ids) h.0 (All-sorted ids h.1)

  pub All-with_id : (i : Uuid) (ids : List Uuid) → P i → All P ids → All P (with_id i ids)
  All-with_id i ids h k = if-split (All P) (member i ids) (λ _. k) (λ _. (h, k))

  pub All-added :
      (id user_id : Uuid) (now created : Time) (ids : List Uuid)
      → All P ids
      → All
          (λ (p : ConversationParticipant). P p.user_id)
          (map (new_participant id user_id now created) ids)
  All-added id user_id now created [] h = tt
  All-added id user_id now created (i ∷ ids) h = (h.0, All-added id user_id now created ids h.1)

pub all-All : (p : Uuid → Bool) (ids : List Uuid) → all p ids ≡ true → All (λ i. p i ≡ true) ids
unfolding all
all-All p [] h = tt
all-All p (i ∷ ids) h = (ground (arith, h), all-All p ids (ground (arith, h)))

pub any-All : (p : Uuid → Bool) (ids : List Uuid) → any p ids ≡ false → All (λ i. p i ≡ false) ids
unfolding any
any-All p [] h = tt
any-All p (i ∷ ids) h = (ground (arith, h), any-All p ids (ground (arith, h)))

-- The restaurant's staff: an active membership, and an owner's only of the restaurant's owner.
abbrev pub IsStaff : MessagingDb → Restaurant → Uuid → Type 0
IsStaff db venue i =
    (m : RestaurantMembership) × Mem m db.memberships
    × (m.user_id ≡ i)
    × (m.restaurant_id ≡ venue.id)
    × (m.status ≡ "active")
    × ((m.role ≢ "owner") ⊎ (venue.owner_user_id ≡ some i))

-- The user, or one of the restaurant's staff.
abbrev pub IsContact : MessagingDb → User → Restaurant → Uuid → Type 0
IsContact db user venue i = (i ≡ user.id) ⊎ IsStaff db venue i

is_owner : (i : Uuid) (o : Option Uuid) → same_id (some i) o ≡ true → o ≡ some i
is_owner i none h = absurd (ground arith)
is_owner i (some j) h = ap (λ k. some k) (ground (arith, h))

is_staff-IsStaff :
    (db : MessagingDb) (venue : Restaurant) (m : RestaurantMembership)
    → Mem m db.memberships
    → is_staff venue m ≡ true
    → IsStaff db venue m.user_id
is_staff-IsStaff db venue m there h = (
  m,
  there,
  refl,
  ground (arith, h),
  (eq_iff m.status "active").0 (ground (arith, h)),
  elim (Bool-cases (str_eq m.role "owner")) [
    | inl owner ↦ inr (is_owner m.user_id venue.owner_user_id (ground (arith, h, owner)))
    | inr other ↦ inl (λ e. absurd (ground (arith, other, (eq_iff m.role "owner").1 e)))
  ],
)

pub restaurant_staff_ids-IsStaff :
    (db : MessagingDb) (venue : Restaurant) → All (IsStaff db venue) (restaurant_staff_ids venue db)
unfolding restaurant_staff_ids
restaurant_staff_ids-IsStaff db venue =
    All-to_set (IsStaff db venue) (map (λ m. m.user_id) (select (is_staff venue) db.memberships)) (
      All-user_ids (IsStaff db venue) (select (is_staff venue) db.memberships) (
        All-select_Mem (λ (m : RestaurantMembership). IsStaff db venue m.user_id) (is_staff venue)
          db.memberships (is_staff-IsStaff db venue)))

-- A row of the users with the id is active.
abbrev pub IsActive : MessagingDb → Uuid → Type 0
IsActive db i = (u : User) × Mem u db.push.users × (u.id ≡ i) × (u.is_active ≡ true)

pub is_inactive_id-IsActive :
    (db : MessagingDb) (i : Uuid) → is_inactive_id db i ≡ false → IsActive db i
unfolding is_inactive_id
is_inactive_id-IsActive db i h =
    let (u, there, hit) =
      any-Mem (λ (u : User). u.id == i && u.is_active) db.push.users (ground (arith, h)) in
    (u, there, ground (arith, hit), ground (arith, hit))

-- A guest is in a session of the restaurant's QR code.
abbrev pub IsInScope : User → Scope → Option Uuid → Restaurant → Type 0
IsInScope user scope scoped_restaurant_id venue =
    (user.is_guest ≡ false) ⊎ ((scope ≡ qr_guest) × (scoped_restaurant_id ≡ some venue.id))

scope_is : (scope : Scope) → is_qr_guest scope ≡ true → scope ≡ qr_guest
scope_is qr_guest h = refl
scope_is full h = absurd (ground arith)
scope_is guest h = absurd (ground arith)
scope_is admin h = absurd (ground arith)

pub is_out_of_scope-IsInScope :
    (user : User) (payload : ConversationCreate) (scope : Scope)
    (scoped_restaurant_id : Option Uuid) (venue : Restaurant)
    → payload.restaurant_id ≡ some venue.id
    → is_out_of_scope user payload scope scoped_restaurant_id ≡ false
    → IsInScope user scope scoped_restaurant_id venue
unfolding is_out_of_scope
is_out_of_scope-IsInScope user payload scope scoped_restaurant_id venue named h =
    elim (Bool-cases user.is_guest) [
      | inl visitor ↦ inr (
        scope_is scope (ground (arith, h, visitor)),
        is_owner venue.id scoped_restaurant_id
            (subst (λ o. same_id o scoped_restaurant_id ≡ true) named (ground (arith, h, visitor))),
      )
      | inr registered ↦ inl registered
    ]

-- The row of the restaurant that the payload names.
pub row_of-Mem :
    (id : Option Uuid) (db : MessagingDb) (venue : Restaurant)
    → row_of id db ≡ some venue
    → Mem venue db.restaurants × (id ≡ some venue.id)
row_of-Mem none db venue found = absurd (ground (arith, found))
row_of-Mem (some i) db venue found =
    let same = find-passes (λ (r : Restaurant). r.id == i) db.restaurants found in
    (
      find-Mem (λ (r : Restaurant). r.id == i) db.restaurants found,
      ap (λ k. some k) (ground (arith, same)),
    )
