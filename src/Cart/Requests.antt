-- ===== src/Cart/Requests.antt =====
-- Two requests of app/api/cart.py on one cart. A request loads the cart in one query, which takes no lock
-- on the row, and commits later; another request may commit in between. What the database makes of a commit
-- of a cart that another request has changed meanwhile is not modelled.
use fofu_backend.Base.{
  Result, ok, err, Returns-elim, ◌+◌, ◌≤◌, Uuid, Time, ◌≡◌, refl, sym, ap, ◌∙◌, subst, Bool, true,
  false, Option, none, some, List, [], ◌∷◌, ◌==◌, ==_refl, arith, inl, inr, Bool-cases, count_if,
  select, update_where, length-select, All-select, All, or_raise,
}
use fofu_backend.Cart.Rows.{
  CartServiceError, Restaurant, Cart, cart_version_conflict, cart_not_found,
}
use fofu_backend.Cart.Service.{Db, newest, is_current, current_cart, get_current_cart, save_cart}
use fofu_backend.Cart.Change.{
  restaurant_of, validate_versions, upserted, deleted, resettled, put_row, commit_cart,
}
use fofu_backend.Cart.Locking.{
  Change, upsert, delete, settings, expected_version_of, changed, change_cart, change_cart-commit,
  changed-version, changed-restaurant, changed-stale,
}
use fofu_backend.Cart.Current.{IsSingle, newest-only}

-- What the handlers of a change do for a guest of the restaurant: `_current_cart`, and the change, where no
-- other request commits between the two.
unfoldable pub handle_change : Change → Time → Uuid → Uuid → Db → Db × Result CartServiceError Cart
unfolding get_current_cart change_cart
handle_change c now user_id restaurant_id db = elim (get_current_cart user_id restaurant_id db) [
  | err e ↦ (db, err e)
  | ok cart ↦ change_cart c now cart db
]

-- The same change by a client that names no version.
abbrev pub unversioned : Change → Change
unversioned (upsert id menu_item_id payload) =
    upsert id menu_item_id (record payload { expected_version = none })
unversioned (delete menu_item_id version revision) = delete menu_item_id none revision
unversioned (settings serving_mode version revision) = settings serving_mode none revision

changed-unversioned :
    (c : Change) (now : Time) (cart : Cart) (db : Db)
    → expected_version_of c ≡ some cart.version
    → changed c now cart db ≡ changed (unversioned c) now cart db
unfolding changed upserted deleted resettled expected_version_of validate_versions put_row
changed-unversioned (upsert id menu_item_id payload) now cart db e =
    rw (e, ==_refl cart.version) refl
changed-unversioned (delete menu_item_id version revision) now cart db e =
    rw (e, ==_refl cart.version) refl
changed-unversioned (settings serving_mode version revision) now cart db e =
    rw (e, ==_refl cart.version) refl

module _ (k p : Cart → Bool) (d c : Cart) where
  select-none :
      (cs : List Cart)
      → select k cs ≡ []
      → count_if p cs ≤ 0
      → select k (update_where p (λ _. c) cs) ≡ []
  unfolding select count_if update_where
  select-none [] e alone = refl
  select-none (x ∷ cs) e alone = ground (arith, select-none cs)

  select-counted : (cs : List Cart) → select k cs ≡ d ∷ [] → p d ≡ true → 1 ≤ count_if p cs
  unfolding select count_if
  select-counted [] e hit = absurd (cc e)
  select-counted (x ∷ cs) e hit = elim (Bool-cases (k x)) [
    | inl passes ↦
        let here : x ≡ d = cc (rw passes at e) in
        ground (arith, subst (λ y. p y ≡ true) (sym here) hit)
    | inr fails ↦ ground (arith, select-counted cs (rw fails at e) hit)
  ]

  -- The only row that a query selects, replaced by its new version.
  select-replaced :
      (cs : List Cart)
      → select k cs ≡ d ∷ []
      → p d ≡ true
      → k c ≡ true
      → count_if p cs ≤ 1
      → select k (update_where p (λ _. c) cs) ≡ c ∷ []
  unfolding select count_if update_where
  select-replaced [] e hit passes alone = absurd (cc e)
  select-replaced (x ∷ cs) e hit passes alone = elim (Bool-cases (k x)) [
    | inl found ↦
        let both : x ∷ select k cs ≡ d ∷ [] = rw found at e in
        let here : p x ≡ true = subst (λ y. p y ≡ true) (sym (cc both)) hit in
        let rest : select k cs ≡ [] = cc both in
        rw (here, passes) (ap (λ cs. c ∷ cs) (select-none cs rest (ground (arith, here))))
    | inr fails ↦
        let rest : select k cs ≡ d ∷ [] = rw fails at e in
        let other : p x ≡ false = ground (arith, select-counted cs rest hit) in
        rw (other, fails) (select-replaced cs rest hit passes (ground (arith, other)))
  ]

-- What is saved of the current cart is the current cart.
current_cart-saved :
    (user_id restaurant_id : Uuid) (db : Db) (cart next : Cart)
    → IsSingle db
    → count_if (λ (c : Cart). c.id == cart.id) db.carts ≤ 1
    → current_cart user_id restaurant_id db ≡ some cart
    → next.id ≡ cart.id
    → next.user_id ≡ cart.user_id
    → next.restaurant_id ≡ cart.restaurant_id
    → next.status ≡ cart.status
    → current_cart user_id restaurant_id (save_cart next db) ≡ some next
unfolding current_cart newest
current_cart-saved user_id restaurant_id db cart next single alone found id user place status =
    let k = is_current user_id restaurant_id in
    let only : select k db.carts ≡ cart ∷ [] =
      newest-only _ (rw (length-select k db.carts) (single user_id restaurant_id)) found in
    let passes : k cart ≡ true =
      (subst (λ cs. All (λ c. k c ≡ true) cs) only (All-select _ k db.carts (λ c e. e))).0 in
    let kept : k next ≡ true = rw (user, place, status) passes in
    ap newest (
      select-replaced k (λ (c : Cart). c.id == next.id) cart next db.carts only (ground (arith, id))
        kept (subst (λ i. count_if (λ (c : Cart). c.id == i) db.carts ≤ 1) (sym id) alone))

loaded_cart : (o : Option Cart) {cart : Cart} → or_raise o cart_not_found ≡ ok cart → o ≡ some cart
loaded_cart none e = absurd (cc e)
loaded_cart (some c) e = cc

handle_change_loaded :
    (c : Change) (now : Time) (user_id restaurant_id : Uuid) (db : Db) {cart : Cart}
    → get_current_cart user_id restaurant_id db ≡ ok cart
    → handle_change c now user_id restaurant_id db ≡ change_cart c now cart db
unfolding handle_change
handle_change_loaded c now user_id restaurant_id db e =
    ap
      (λ (r : Result CartServiceError Cart). elim r as (λ _. Db × Result CartServiceError Cart) [
        | err e ↦ (db, err e)
        | ok cart ↦ change_cart c now cart db
      ])
      e

-- The tables after a change that has been made.
made_tables :
    (m : Result CartServiceError Cart) (db db' : Db) (answer : Cart)
    → commit_cart m db ≡ (db', ok answer)
    → (next : Cart) × (m ≡ ok next) × (db' ≡ save_cart next db)
unfolding commit_cart
made_tables (ok next) db db' answer made =
    (next, refl, sym (ap (λ (p : Db × Result CartServiceError Cart). p.0) made))
made_tables (err e) db db' answer made =
    absurd (cc (ap (λ (p : Db × Result CartServiceError Cart). p.1) made))

-- Two clients have read the same version of the user's cart, ids are unique and the user has one active
-- cart at the restaurant, and the change of the first client has been made. The second client names the
-- version it has read. Where its request loads the cart after the first commit, each kind of change is
-- refused with both versions and changes no table. Where it has loaded the cart before that commit, its
-- version is of no effect: up to its own commit it is handled as if it named none.
pub handle_change-second :
    (first second : Change) (now later : Time) (user_id restaurant_id : Uuid) (db db' : Db)
    {cart answer : Cart}
    → IsSingle db
    → count_if (λ (c : Cart). c.id == cart.id) db.carts ≤ 1
    → get_current_cart user_id restaurant_id db ≡ ok cart
    → handle_change first now user_id restaurant_id db ≡ (db', ok answer)
    → expected_version_of second ≡ some cart.version
    → (handle_change second later user_id restaurant_id db'
        ≡ (db', err (cart_version_conflict cart.version (cart.version + 1))))
      × (changed second later cart db' ≡ changed (unversioned second) later cart db')
handle_change-second first second now later user_id restaurant_id db db' {cart} {answer} single
      alone loaded made named =
    let (next, is_next, tables) = made_tables (changed first now cart db) db db' answer (
      sym (change_cart-commit first now cart db)
      ∙ (sym (handle_change_loaded first now user_id restaurant_id db loaded) ∙ made)) in
    let (expected, version, id, user, place, status) = changed-version first now cart db is_next in
    let (restaurant, found) =
      Returns-elim (λ _. (r : Restaurant) × (restaurant_of cart db ≡ some r))
        (changed first now cart db) (changed-restaurant first now cart db) is_next in
    let kept : restaurant_of next db' ≡ some restaurant =
      unfold restaurant_of in rw (tables, place) found in
    let reloaded : get_current_cart user_id restaurant_id db' ≡ ok next =
      unfold get_current_cart in
      rw
        (
          tables,
          current_cart-saved user_id restaurant_id db cart next single alone
              (unfold get_current_cart in loaded_cart _ loaded) id user place status,
        )
        refl in
    let refused : changed second later next db'
        ≡ err (cart_version_conflict cart.version (cart.version + 1)) =
      changed-stale second later next db' cart.version kept named (rw version (ground arith))
      ∙ rw version refl in
    (
      handle_change_loaded second later user_id restaurant_id db' reloaded
          ∙ (change_cart-commit second later next db'
              ∙ (ap (λ m. commit_cart m db') refused ∙ unfold commit_cart in refl)),
      changed-unversioned second later cart db' named,
    )
