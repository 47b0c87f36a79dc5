-- ===== src/Cart/Service.antt =====
-- app/services/cart.py: finding and creating the current cart.
use fofu_backend.Base.{
  Result, or_raise, ℕ, Uuid, Time, ◌&&◌, ◌||◌, not, String, Bool, true, false, Option, none, some,
  List, [], ◌∷◌, ◌++◌, ◌==◌, leb, str_eq, update_where, select, if◌then◌else◌,
}
use fofu_backend.Cart.Rows.{
  CartServiceError, active, abandoned, is_active, dine_in, MenuItem, Restaurant, Cart, FoodPassport,
  cart_not_found,
}

pub record Db : Type 0 where
  pub restaurants : List Restaurant
  pub menu_items : List MenuItem
  pub carts : List Cart
  pub passports : List FoodPassport

-- The cart updated last, of one and what was found among the others.
abbrev pub newer : Cart → Option Cart → Option Cart
newer c none = some c
newer c (some d) = if leb d.updated_at c.updated_at then some c else some d

-- Of the carts, the one updated last.
unfoldable pub newest : List Cart → Option Cart
newest [] = none
newest (c ∷ cs) = newer c (newest cs)

abbrev pub is_current : Uuid → Uuid → Cart → Bool
is_current user_id restaurant_id c =
    c.user_id == user_id && (c.restaurant_id == restaurant_id && is_active c.status)

-- `_current_cart_query` and `.first()`
unfoldable pub current_cart : Uuid → Uuid → Db → Option Cart
unfolding newest
current_cart user_id restaurant_id db = newest (select (is_current user_id restaurant_id) db.carts)

unfoldable pub get_current_cart : Uuid → Uuid → Db → Result CartServiceError Cart
unfolding current_cart
get_current_cart user_id restaurant_id db =
    or_raise (current_cart user_id restaurant_id db) cart_not_found

abbrev pub save_cart : Cart → Db → Db
save_cart cart db = record db {
  carts = update_where (λ (c : Cart). c.id == cart.id) (λ c. cart) db.carts;
}

abbrev pub same_label : Option String → Option String → Bool
same_label none none = true
same_label (some a) (some b) = str_eq a b
same_label _ _ = false

abbrev pub same_price : Option ℕ → Option ℕ → Bool
same_price none none = true
same_price (some a) (some b) = a == b
same_price _ _ = false

abbrev pub new_cart : Uuid → Uuid → Restaurant → Option String → ℕ → Time → Cart
new_cart id user_id restaurant table_label menu_revision now = record {
  id = id;
  user_id = user_id;
  restaurant_id = restaurant.id;
  status = active;
  serving_mode = dine_in;
  table_label = table_label;
  menu_revision = menu_revision;
  version = 1;
  updated_at = now;
  items = [];
}

unfoldable pub create_cart : Cart → Db → Db × Cart
create_cart cart db = (record db { carts = db.carts ++ cart ∷ [] }, cart)

-- `get_or_create_cart`, given what the query found; `id` is the id of a new row
unfoldable pub reuse_or_create :
    Uuid → Uuid → Restaurant → Option String → ℕ → Time → Option Cart → Db → Db × Cart
unfolding create_cart
reuse_or_create id user_id restaurant table_label menu_revision now none db =
    create_cart (new_cart id user_id restaurant table_label menu_revision now) db
reuse_or_create id user_id restaurant table_label menu_revision now (some cart) db =
    if not (same_label cart.table_label table_label) || not (cart.menu_revision == menu_revision)
    then create_cart (new_cart id user_id restaurant table_label menu_revision now)
        (save_cart (record cart { status = abandoned; updated_at = now }) db)
    else (db, cart)

-- `get_or_create_cart`
unfoldable pub get_or_create_cart :
    Uuid → Uuid → Restaurant → Option String → ℕ → Time → Db → Db × Cart
unfolding reuse_or_create current_cart
get_or_create_cart id user_id restaurant table_label menu_revision now db =
    reuse_or_create id user_id restaurant table_label menu_revision now
      (current_cart user_id restaurant.id db) db
