-- ===== src/Cart/Current.antt =====
-- The current cart in app/services/cart.py: a user has at most one active cart at a restaurant.
use fofu_backend.Base.{
  ℕ, ◌+◌, ◌≤◌, Uuid, Time, String, ◌≡◌, refl, ap, sym, Bool, true, false, not, ◌||◌, Option, none,
  some, List, [], ◌∷◌, ◌==◌, ==_iff, ==_refl, eq_iff, leb, arith, inl, inr, Bool-cases, and-true,
  some_inj, if-split, if◌then◌else◌, is_none, length, length-select, select, update_where, count_if,
  count_if-append, All, All-select,
}
use fofu_backend.Cart.Rows.{abandoned, is_active, Cart, Restaurant}
use fofu_backend.Cart.Service.{
  Db, newer, newest, is_current, current_cart, save_cart, same_label, new_cart, create_cart,
  reuse_or_create, get_or_create_cart,
}

-- `P` holds of the cart, where there is one.
abbrev pub HoldsOf : (Cart → Type 0) → Option Cart → Type 0
HoldsOf P none = Unit
HoldsOf P (some c) = P c

newer-HoldsOf :
    (P : Cart → Type 0) (c : Cart) (o : Option Cart) → P c → HoldsOf P o → HoldsOf P (newer c o)
newer-HoldsOf P c none h k = h
newer-HoldsOf P c (some d) h k =
    if-split (HoldsOf P) (leb d.updated_at c.updated_at) (λ _. h) (λ _. k)

pub newest-HoldsOf : (P : Cart → Type 0) (cs : List Cart) → All P cs → HoldsOf P (newest cs)
unfolding newest
newest-HoldsOf P [] h = tt
newest-HoldsOf P (c ∷ cs) h = newer-HoldsOf P c (newest cs) h.0 (newest-HoldsOf P cs h.1)

newer-some : (c : Cart) (o : Option Cart) → is_none (newer c o) ≡ false
newer-some c none = refl
newer-some c (some d) =
    if-split (λ (o : Option Cart). is_none o ≡ false) (leb d.updated_at c.updated_at) (λ _. refl)
      (λ _. refl)

newest-none : (cs : List Cart) → newest cs ≡ none → cs ≡ []
unfolding newest
newest-none [] e = refl
newest-none (c ∷ cs) e = absurd (ground (arith, newer-some c (newest cs), e))

pub newest-only : (cs : List Cart) {c : Cart} → length cs ≤ 1 → newest cs ≡ some c → cs ≡ c ∷ []
unfolding newest
newest-only [] h e = absurd (cc e)
newest-only (x ∷ []) h e = ap (λ d. d ∷ []) (some_inj e)
newest-only (x ∷ y ∷ cs) h e = absurd (omega (arith, h))

module _ (k : Cart → Bool) where
  count_if-update-le :
      (p : Cart → Bool) (c : Cart) (cs : List Cart)
      → k c ≡ false
      → count_if k (update_where p (λ _. c) cs) ≤ count_if k cs
  unfolding count_if update_where
  count_if-update-le p c [] h = omega arith
  count_if-update-le p c (x ∷ cs) h = ground (arith, h, count_if-update-le p c cs)

  select-count : (cs : List Cart) → select k cs ≡ [] → count_if k cs ≡ 0
  unfolding count_if select
  select-count [] e = refl
  select-count (x ∷ cs) e = ground (arith, select-count cs)

  -- The one row that passes is replaced by one that does not.
  count_if-replaced :
      (d c : Cart) (cs : List Cart)
      → k c ≡ false
      → select k cs ≡ d ∷ []
      → count_if k (update_where (λ (x : Cart). x.id == d.id) (λ _. c) cs) ≡ 0
  unfolding count_if update_where select
  count_if-replaced d c [] h only = refl
  count_if-replaced d c (x ∷ cs) h only = elim (Bool-cases (k x)) [
    | inl passes ↦
        let both : x ∷ select k cs ≡ d ∷ [] = rw passes at only in
        let here : x ≡ d = cc both in
        let rest : select k cs ≡ [] = cc both in
        rw (here, ==_refl d.id, h)
          (omega
            (arith, count_if-update-le (λ (x : Cart). x.id == d.id) c cs h, select-count cs rest))
    | inr fails ↦
        let later = count_if-replaced d c cs h (rw fails at only) in
        if-split
          (λ (y : Cart).
            (if k y then 1 else 0)
              + count_if k (update_where (λ (x : Cart). x.id == d.id) (λ _. c) cs)
            ≡ 0)
          (x.id == d.id) (λ _. rw (h, later) refl) (λ _. rw (fails, later) refl)
  ]

-- A user has at most one active cart at a restaurant.
abbrev pub IsSingle : Db → Type 0
IsSingle db =
    (user_id restaurant_id : Uuid) → count_if (is_current user_id restaurant_id) db.carts ≤ 1

create_cart-IsSingle :
    (cart : Cart) (db : Db)
    → count_if (is_current cart.user_id cart.restaurant_id) db.carts ≡ 0
    → IsSingle db
    → IsSingle (create_cart cart db).0
unfolding create_cart count_if
create_cart-IsSingle cart db zero_yet h user_id restaurant_id =
    elim (Bool-cases (is_current user_id restaurant_id cart)) [
      | inl its ↦
          let (same_user, others) = and-true _ _ its in
          let (same_restaurant, is_on) = and-true _ _ others in
          let user = (==_iff cart.user_id user_id).0 same_user in
          let place = (==_iff cart.restaurant_id restaurant_id).0 same_restaurant in
          rw
            (
              count_if-append (is_current user_id restaurant_id) db.carts (cart ∷ []),
              sym user,
              sym place,
              zero_yet,
            )
            (if-split (λ (n : ℕ). 0 + (n + 0) ≤ 1) (is_current cart.user_id cart.restaurant_id cart)
              (λ _. omega arith) (λ _. omega arith))
      | inr not_its ↦
          rw (count_if-append (is_current user_id restaurant_id) db.carts (cart ∷ []), not_its)
            (ground (arith, h user_id restaurant_id))
    ]

save_cart-IsSingle :
    (cart : Cart) (db : Db)
    → is_active cart.status ≡ false
    → IsSingle db
    → IsSingle (save_cart cart db)
save_cart-IsSingle cart db h single user_id restaurant_id =
    let off : is_current user_id restaurant_id cart ≡ false = ground (arith, h) in
    omega (
      arith,
      count_if-update-le (is_current user_id restaurant_id) (λ (c : Cart). c.id == cart.id) cart
          db.carts off,
      single user_id restaurant_id,
    )

-- The cart is the user's active one at the restaurant, with the label and the revision asked for.
abbrev pub IsAskedFor : Uuid → Uuid → Option String → ℕ → Cart → Type 0
IsAskedFor user_id restaurant_id table_label menu_revision cart =
    (is_current user_id restaurant_id cart ≡ true)
    × (same_label cart.table_label table_label ≡ true)
    × ((cart.menu_revision == menu_revision) ≡ true)

same_label_refl : (label : Option String) → same_label label label ≡ true
same_label_refl none = refl
same_label_refl (some t) = (eq_iff t t).1 refl

module _ (id user_id : Uuid) (restaurant : Restaurant) (table_label : Option String)
    (menu_revision : ℕ) (now : Time) where
  reuse_or_create-IsSingle :
      (o : Option Cart) (db : Db)
      → current_cart user_id restaurant.id db ≡ o
      → IsSingle db
      → IsSingle (reuse_or_create id user_id restaurant table_label menu_revision now o db).0
  unfolding reuse_or_create current_cart
  reuse_or_create-IsSingle none db e h =
      create_cart-IsSingle (new_cart id user_id restaurant table_label menu_revision now) db
        (select-count (is_current user_id restaurant.id) db.carts (newest-none _ e)) h
  reuse_or_create-IsSingle (some c) db e h =
      let gone = record c { status = abandoned; updated_at = now } in
      let off : is_current user_id restaurant.id gone ≡ false = ground arith in
      let only : select (is_current user_id restaurant.id) db.carts ≡ c ∷ [] =
        newest-only _
          (rw (length-select (is_current user_id restaurant.id) db.carts) (h user_id restaurant.id))
          e in
      if-split (λ (r : Db × Cart). IsSingle r.0)
        (not (same_label c.table_label table_label) || not (c.menu_revision == menu_revision))
        (λ _.
          create_cart-IsSingle (new_cart id user_id restaurant table_label menu_revision now)
            (save_cart gone db)
            (count_if-replaced (is_current user_id restaurant.id) c gone db.carts off only)
            (save_cart-IsSingle gone db refl h))
        (λ _. h)

  reuse_or_create-IsAskedFor :
      (o : Option Cart) (db : Db)
      → HoldsOf (λ c. is_current user_id restaurant.id c ≡ true) o
      → IsAskedFor user_id restaurant.id table_label menu_revision
          (reuse_or_create id user_id restaurant table_label menu_revision now o db).1
  unfolding reuse_or_create create_cart
  reuse_or_create-IsAskedFor none db h = (
    rw (==_refl user_id, ==_refl restaurant.id) refl,
    same_label_refl table_label,
    ==_refl menu_revision,
  )
  reuse_or_create-IsAskedFor (some c) db h =
      if-split (λ (r : Db × Cart). IsAskedFor user_id restaurant.id table_label menu_revision r.1)
        (not (same_label c.table_label table_label) || not (c.menu_revision == menu_revision))
        (λ _. (
          rw (==_refl user_id, ==_refl restaurant.id) refl,
          same_label_refl table_label,
          ==_refl menu_revision,
        ))
        (λ e. (h, ground (arith, e), ground (arith, e)))

-- Where each user has at most one active cart at a restaurant, it stays so, and the cart that is
-- returned is the user's active one at the restaurant, with the table and the menu revision asked for.
pub get_or_create_cart-IsSingle :
    (id user_id : Uuid) (restaurant : Restaurant) (table_label : Option String) (menu_revision : ℕ)
    (now : Time) (db : Db)
    → IsSingle db
    → let (db', cart) = get_or_create_cart id user_id restaurant table_label menu_revision now db in
      IsSingle db' × IsAskedFor user_id restaurant.id table_label menu_revision cart
unfolding get_or_create_cart
get_or_create_cart-IsSingle id user_id restaurant table_label menu_revision now db h = (
  reuse_or_create-IsSingle id user_id restaurant table_label menu_revision now
      (current_cart user_id restaurant.id db) db refl h,
  reuse_or_create-IsAskedFor id user_id restaurant table_label menu_revision now
      (current_cart user_id restaurant.id db) db
      (unfold current_cart in
        newest-HoldsOf (λ c. is_current user_id restaurant.id c ≡ true) _
          (All-select _ (is_current user_id restaurant.id) db.carts (λ c e. e))),
)
