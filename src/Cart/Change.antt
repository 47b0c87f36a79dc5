-- ===== src/Cart/Change.antt =====
-- app/services/cart.py: changing the current cart. An error leaves the tables as they were unless
-- the operation had committed.
use Prim.Native.String.{compare as compare_text}
use Prim.Native.Nat.{Ordering}
use fofu_backend.Base.{
  Result, ok, err, ◌>>=◌, ◌>>◌, raise_if, or_raise, ℕ, ◌+◌, Uuid, Time, ◌||◌, not, String, Bool,
  true, false, Option, none, some, List, [], ◌∷◌, ◌++◌, ◌==◌, str_eq, update_where, delete_where,
  select, find, any, is_empty, if◌then◌else◌,
}
use fofu_backend.Cart.Rows.{
  CartServiceError, ServingMode, MenuItem, Restaurant, CartRow, Cart, restaurant_not_found,
  menu_item_not_found, cart_item_not_found, cart_version_conflict, menu_revision_conflict,
  menu_item_unavailable, unsupported_request_code, menu_item_price_changed,
}
use fofu_backend.Cart.Service.{Db, save_cart, same_price, get_current_cart}

-- `expected_menu_revision or cart.menu_revision`: zero counts as missing
abbrev pub requested_revision : Option ℕ → ℕ → ℕ
requested_revision none current = current
requested_revision (some r) current = if r == 0 then current else r

abbrev pub check_version : Option ℕ → ℕ → Result CartServiceError (Unit {0})
check_version none version = ok tt
check_version (some e) version = raise_if (not (e == version)) (cart_version_conflict e version)

-- `_validate_versions`
unfoldable pub validate_versions :
    Cart → Restaurant → Option ℕ → Option ℕ → Result CartServiceError (Unit {0})
validate_versions cart restaurant expected_version expected_menu_revision = do
  check_version expected_version cart.version
  let requested = requested_revision expected_menu_revision cart.menu_revision
  raise_if
      (not (requested == cart.menu_revision)
        || not (cart.menu_revision == restaurant.menu_revision))
      (menu_revision_conflict requested cart.menu_revision restaurant.menu_revision)

unfoldable pub restaurant_of : Cart → Db → Option Restaurant
restaurant_of cart db = find (λ (r : Restaurant). r.id == cart.restaurant_id) db.restaurants

unfoldable pub menu_item_by_id : Uuid → Db → Option MenuItem
menu_item_by_id i db = find (λ (m : MenuItem). m.id == i) db.menu_items

-- The row of the cart for a menu item.
unfoldable pub row_of : Uuid → Cart → Option CartRow
row_of menu_item_id cart = find (λ (r : CartRow). r.menu_item_id == menu_item_id) cart.items

-- app/schemas/cart.py: `CartItemUpsert`, validated
pub record CartItemUpsert : Type 0 where
  pub quantity : ℕ
  pub notes : Option String
  pub request_codes : List String
  pub expected_version : Option ℕ
  pub expected_menu_revision : Option ℕ

-- The keys of `REQUEST_TRANSLATIONS`.
abbrev pub request_keys : List String
request_keys = "less_spicy" ∷ "no_pork" ∷ "no_peanuts" ∷ "no_dairy" ∷ []

abbrev pub text_leb : String → String → Bool
text_leb a b = elim (compare_text a b) [ Ordering.gt ↦ false | _ ↦ true ]

-- `sorted` of a set, a code at a time
unfoldable pub insert_code : String → List String → List String
insert_code a [] = a ∷ []
insert_code a (b ∷ bs) =
    let rest = insert_code a bs in
    if str_eq a b then b ∷ bs else if text_leb a b then a ∷ b ∷ bs else b ∷ rest

unfoldable pub sorted_set : List String → List String
unfolding insert_code
sorted_set [] = []
sorted_set (c ∷ cs) = insert_code c (sorted_set cs)

abbrev pub has_code : List String → String → Bool
has_code codes c = any (λ d. str_eq d c) codes

unfoldable pub unsupported_requests : List String → List String
unfolding sorted_set
unsupported_requests codes = sorted_set (select (λ c. not (has_code request_keys c)) codes)

-- The price of the row is not the item's any more; there may be no row yet.
abbrev pub check_price : MenuItem → Option CartRow → Result CartServiceError (Unit {0})
check_price item none = ok tt
check_price item (some row) =
    raise_if (not (same_price row.unit_price_snapshot item.price_amount))
      (menu_item_price_changed item.id row.unit_price_snapshot item.price_amount)

-- The row that is appended, or the assignments to the row that is there.
unfoldable pub put_row :
    Uuid → MenuItem → CartItemUpsert → Option CartRow → List CartRow → List CartRow
put_row id item payload none items =
    items
    ++ record {
      id = id;
      menu_item_id = item.id;
      quantity = payload.quantity;
      unit_price_snapshot = item.price_amount;
      notes = payload.notes;
      request_codes = payload.request_codes;
    }
      ∷ []
put_row id item payload (some row) items =
    update_where (λ (r : CartRow). r.id == row.id)
      (λ r. record r {
        quantity = payload.quantity;
        notes = payload.notes;
        request_codes = payload.request_codes;
      })
      items

-- `cart.version += 1` with the stamp of the row
abbrev pub bump : List CartRow → Time → Cart → Cart
bump items now cart = record cart { items = items; version = cart.version + 1; updated_at = now }

-- `upsert_item` up to the commit
unfoldable pub upserted :
    Uuid → Uuid → CartItemUpsert → Time → Cart → Db → Result CartServiceError Cart
unfolding restaurant_of validate_versions menu_item_by_id unsupported_requests row_of put_row
upserted id menu_item_id payload now cart db = do
  restaurant ← or_raise (restaurant_of cart db) restaurant_not_found
  validate_versions cart restaurant payload.expected_version payload.expected_menu_revision
  item ← or_raise (menu_item_by_id menu_item_id db) menu_item_not_found
  raise_if (not (item.restaurant_id == cart.restaurant_id)) menu_item_not_found
  raise_if (not item.is_available) (menu_item_unavailable item.id)
  raise_if (not (is_empty (unsupported_requests payload.request_codes)))
      (unsupported_request_code (unsupported_requests payload.request_codes))
  check_price item (row_of menu_item_id cart)
  ok (bump (put_row id item payload (row_of menu_item_id cart) cart.items) now cart)

-- `db.commit()` and `return get_current_cart(...)`
unfoldable pub commit_cart : Result CartServiceError Cart → Db → Db × Result CartServiceError Cart
unfolding get_current_cart
commit_cart (err e) db = (db, err e)
commit_cart (ok cart) db =
    (save_cart cart db, get_current_cart cart.user_id cart.restaurant_id (save_cart cart db))

unfoldable pub upsert_item :
    Uuid → Uuid → CartItemUpsert → Time → Cart → Db → Db × Result CartServiceError Cart
unfolding upserted commit_cart
upsert_item id menu_item_id payload now cart db =
    commit_cart (upserted id menu_item_id payload now cart db) db

-- `delete_item` up to the commit
unfoldable pub deleted :
    Uuid → Option ℕ → Option ℕ → Time → Cart → Db → Result CartServiceError Cart
unfolding restaurant_of validate_versions row_of
deleted menu_item_id expected_version expected_menu_revision now cart db = do
  restaurant ← or_raise (restaurant_of cart db) restaurant_not_found
  validate_versions cart restaurant expected_version expected_menu_revision
  row ← or_raise (row_of menu_item_id cart) cart_item_not_found
  ok (bump (delete_where (λ (r : CartRow). r.id == row.id) cart.items) now cart)

unfoldable pub delete_item :
    Uuid → Option ℕ → Option ℕ → Time → Cart → Db → Db × Result CartServiceError Cart
unfolding deleted commit_cart
delete_item menu_item_id expected_version expected_menu_revision now cart db =
    commit_cart (deleted menu_item_id expected_version expected_menu_revision now cart db) db

-- `update_settings` up to the commit
unfoldable pub resettled :
    ServingMode → Option ℕ → Option ℕ → Time → Cart → Db → Result CartServiceError Cart
unfolding restaurant_of validate_versions
resettled serving_mode expected_version expected_menu_revision now cart db = do
  restaurant ← or_raise (restaurant_of cart db) restaurant_not_found
  validate_versions cart restaurant expected_version expected_menu_revision
  ok (record (bump cart.items now cart) { serving_mode = serving_mode })

unfoldable pub update_settings :
    ServingMode → Option ℕ → Option ℕ → Time → Cart → Db → Db × Result CartServiceError Cart
unfolding resettled commit_cart
update_settings serving_mode expected_version expected_menu_revision now cart db =
    commit_cart (resettled serving_mode expected_version expected_menu_revision now cart db) db
