-- ===== src/Cart/Locking.antt =====
-- The three changes of a cart in app/services/cart.py as one type, and their check of the version.
use fofu_backend.Base.{
  Result, ok, err, ◌>>◌, Returns, Returns-bind, Returns-raise_if, Returns-or_raise, Returns-elim,
  Returns-intro, Returns-then, ℕ, ◌+◌, Uuid, Time, ◌≡◌, refl, Bool, true, false, not, Option, none,
  some, ◌==◌, is_empty, arith,
}
use fofu_backend.Cart.Rows.{
  CartServiceError, ServingMode, Restaurant, Cart, restaurant_not_found, menu_item_not_found,
  menu_item_unavailable, unsupported_request_code, cart_item_not_found, cart_version_conflict,
  menu_revision_conflict,
}
use fofu_backend.Cart.Service.{Db}
use fofu_backend.Cart.Change.{
  CartItemUpsert, restaurant_of, menu_item_by_id, row_of, check_price, validate_versions,
  unsupported_requests, upserted, deleted, resettled, upsert_item, delete_item, update_settings,
  commit_cart,
}

-- A call that changes the cart.
pub data Change : Type 0 where
  upsert : Uuid → Uuid → CartItemUpsert → Change
  delete : Uuid → Option ℕ → Option ℕ → Change
  settings : ServingMode → Option ℕ → Option ℕ → Change

unfoldable pub expected_version_of : Change → Option ℕ
expected_version_of (upsert id menu_item_id payload) = payload.expected_version
expected_version_of (delete menu_item_id expected_version expected_menu_revision) = expected_version
expected_version_of (settings serving_mode expected_version expected_menu_revision) =
    expected_version

-- The change up to its commit.
unfoldable pub changed : Change → Time → Cart → Db → Result CartServiceError Cart
unfolding upserted deleted resettled
changed (upsert id menu_item_id payload) now cart db = upserted id menu_item_id payload now cart db
changed (delete menu_item_id version revision) now cart db =
    deleted menu_item_id version revision now cart db
changed (settings serving_mode version revision) now cart db =
    resettled serving_mode version revision now cart db

-- The change with its commit.
unfoldable pub change_cart : Change → Time → Cart → Db → Db × Result CartServiceError Cart
unfolding upsert_item delete_item update_settings
change_cart (upsert id menu_item_id payload) now cart db =
    upsert_item id menu_item_id payload now cart db
change_cart (delete menu_item_id version revision) now cart db =
    delete_item menu_item_id version revision now cart db
change_cart (settings serving_mode version revision) now cart db =
    update_settings serving_mode version revision now cart db

pub change_cart-commit :
    (c : Change) (now : Time) (cart : Cart) (db : Db)
    → change_cart c now cart db ≡ commit_cart (changed c now cart db) db
unfolding change_cart changed upsert_item delete_item update_settings
change_cart-commit (upsert id menu_item_id payload) now cart db = refl
change_cart-commit (delete menu_item_id version revision) now cart db = refl
change_cart-commit (settings serving_mode version revision) now cart db = refl

-- The client has read this version, or names none.
abbrev pub is_expected : Option ℕ → ℕ → Bool
is_expected none version = true
is_expected (some e) version = e == version

-- The cart as a change that the client may make leaves it.
abbrev pub IsNext : Option ℕ → Cart → Cart → Type 0
IsNext expected_version cart next =
    (is_expected expected_version cart.version ≡ true)
    × (next.version ≡ cart.version + 1)
    × (next.id ≡ cart.id)
    × (next.user_id ≡ cart.user_id)
    × (next.restaurant_id ≡ cart.restaurant_id)
    × (next.status ≡ cart.status)

-- What follows the checks runs only where the version is the expected one.
Returns-versions {ℓ} :
    (P : Cart → Type ℓ) (cart : Cart) (restaurant : Restaurant) (version revision : Option ℕ)
    (m : Result CartServiceError Cart)
    → (is_expected version cart.version ≡ true → Returns P m)
    → Returns P (validate_versions cart restaurant version revision >> m)
unfolding validate_versions
Returns-versions P cart restaurant none revision m h =
    Returns-raise_if P _ (menu_revision_conflict _ cart.menu_revision restaurant.menu_revision) m
      (λ _. h refl)
Returns-versions P cart restaurant (some v) revision m h =
    Returns-bind (λ _. is_expected (some v) cart.version ≡ true) P
      (validate_versions cart restaurant (some v) revision) (λ _. m)
      (unfold validate_versions in
        Returns-raise_if _ (not (v == cart.version)) (cart_version_conflict v cart.version) _
          (λ e. Returns-intro (λ _. (v == cart.version) ≡ true) _ (λ _. ground (arith, e))))
      (λ _. h)

changed-IsNext :
    (c : Change) (now : Time) (cart : Cart) (db : Db)
    → Returns (IsNext (expected_version_of c) cart) (changed c now cart db)
unfolding changed upserted deleted resettled expected_version_of
changed-IsNext (upsert id menu_item_id payload) now cart db =
    unfold upserted in
    Returns-or_raise _ (restaurant_of cart db) restaurant_not_found _ (λ restaurant _.
      Returns-versions _ cart restaurant payload.expected_version payload.expected_menu_revision _
        (λ h. Returns-or_raise _ (menu_item_by_id menu_item_id db) menu_item_not_found _ (λ item _.
          Returns-raise_if _ (not (item.restaurant_id == cart.restaurant_id)) menu_item_not_found _
            (λ _. Returns-raise_if _ (not item.is_available) (menu_item_unavailable item.id) _ (λ _.
              Returns-raise_if _ (not (is_empty (unsupported_requests payload.request_codes)))
                (unsupported_request_code _) _
                (λ _.
                  Returns-then _ (check_price item (row_of menu_item_id cart)) _
                    (h, refl, refl, refl, refl, refl)))))))
changed-IsNext (delete menu_item_id version revision) now cart db =
    Returns-or_raise _ (restaurant_of cart db) restaurant_not_found _ (λ restaurant _.
      Returns-versions _ cart restaurant version revision _ (λ h.
        Returns-or_raise _ (row_of menu_item_id cart) cart_item_not_found _
          (λ row _. (h, refl, refl, refl, refl, refl))))
changed-IsNext (settings serving_mode version revision) now cart db =
    Returns-or_raise _ (restaurant_of cart db) restaurant_not_found _ (λ restaurant _.
      Returns-versions _ cart restaurant version revision _
        (λ h. (h, refl, refl, refl, refl, refl)))

-- A change that is made counts the version up by one, and keeps the cart's id, owner, restaurant and
-- status; and the client has named no version or the one that the cart had.
pub changed-version :
    (c : Change) (now : Time) (cart : Cart) (db : Db) {next : Cart}
    → changed c now cart db ≡ ok next
    → IsNext (expected_version_of c) cart next
changed-version c now cart db h =
    Returns-elim (IsNext (expected_version_of c) cart) (changed c now cart db)
      (changed-IsNext c now cart db) h

-- The restaurant of the cart has been found.
pub changed-restaurant :
    (c : Change) (now : Time) (cart : Cart) (db : Db)
    → Returns (λ _. (r : Restaurant) × (restaurant_of cart db ≡ some r)) (changed c now cart db)
unfolding changed upserted deleted resettled
changed-restaurant (upsert id menu_item_id payload) now cart db =
    Returns-or_raise _ (restaurant_of cart db) restaurant_not_found _ (λ r e.
      Returns-intro (λ _. (r : Restaurant) × (restaurant_of cart db ≡ some r)) _ (λ _. (r, e)))
changed-restaurant (delete menu_item_id version revision) now cart db =
    Returns-or_raise _ (restaurant_of cart db) restaurant_not_found _ (λ r e.
      Returns-intro (λ _. (r : Restaurant) × (restaurant_of cart db ≡ some r)) _ (λ _. (r, e)))
changed-restaurant (settings serving_mode version revision) now cart db =
    Returns-or_raise _ (restaurant_of cart db) restaurant_not_found _ (λ r e.
      Returns-intro (λ _. (r : Restaurant) × (restaurant_of cart db ≡ some r)) _ (λ _. (r, e)))

-- A change that expects another version is refused.
pub changed-stale :
    (c : Change) (now : Time) (cart : Cart) (db : Db) {r : Restaurant} (v : ℕ)
    → restaurant_of cart db ≡ some r
    → expected_version_of c ≡ some v
    → (v == cart.version) ≡ false
    → changed c now cart db ≡ err (cart_version_conflict v cart.version)
unfolding changed upserted deleted resettled expected_version_of validate_versions
changed-stale (upsert id menu_item_id payload) now cart db v found e ne = rw (found, e, ne) refl
changed-stale (delete menu_item_id version revision) now cart db v found e ne =
    rw (found, e, ne) refl
changed-stale (settings serving_mode version revision) now cart db v found e ne =
    rw (found, e, ne) refl
