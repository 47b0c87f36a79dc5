-- ===== src/Cart/Serialize.antt =====
-- app/services/cart.py: `money`, `_load_menu_items`, `_translated_item` and `serialize_cart`, with
-- what they return (app/schemas/cart.py).
use fofu_backend.Base.{
  Result, ok, ◌>>=◌, or_raise, ℕ, ◌+◌, ◌*◌, Uuid, Time, String, Bool, true, false, ◌||◌, Option,
  none, some, List, [], ◌∷◌, ◌==◌, str_eq, any, is_none, select, find, if◌then◌else◌,
}
use fofu_backend.Utils.Text.{grouped, ◌<>◌}
use fofu_backend.Utils.Locale.{normalize_locale, localized}
use fofu_backend.Cart.Rows.{
  CartServiceError, CartStatus, ServingMode, MenuItem, Translation, CartRow, Cart, Restaurant,
  restaurant_not_found,
}
use fofu_backend.Cart.Service.{Db}
use fofu_backend.Cart.Change.{restaurant_of}

pub record Money : Type 0 where
  pub amount : ℕ
  pub currency : String
  pub formatted : String

unfoldable pub money : String → ℕ → Money
unfolding grouped
money currency amount = record {
  amount = amount;
  currency = currency;
  formatted =
      if str_eq currency "KRW" then "₩" <> grouped amount else grouped amount <> " " <> currency;
}

-- `money(amount, currency) if amount is not None else None`
abbrev pub money_of : String → Option ℕ → Option Money
money_of currency none = none
money_of currency (some amount) = some (money currency amount)

-- `_load_menu_items`: the items that a row of the cart names
unfoldable pub load_menu_items : Db → Cart → List MenuItem
load_menu_items db cart =
    select (λ (m : MenuItem). any (λ (r : CartRow). r.menu_item_id == m.id) cart.items)
      db.menu_items

-- `menu_items.get(menu_item_id)`
unfoldable pub loaded_item : List MenuItem → Uuid → Option MenuItem
loaded_item menu_items i = find (λ (m : MenuItem). m.id == i) menu_items

abbrev pub translated_name : MenuItem → String → Option Translation → String
translated_name item locale none = localized item.name_en item.name_ko (some locale)
translated_name item locale (some t) = t.name

-- `_translated_item`, its first part; the second is the item's Korean name
unfoldable pub translated_item : MenuItem → Option String → String
translated_item item locale =
    translated_name item (normalize_locale locale)
      (find (λ (t : Translation). str_eq t.locale (normalize_locale locale)) item.translations)

abbrev pub line_total : Option ℕ → ℕ → Option ℕ
line_total none quantity = none
line_total (some unit_price) quantity = some (unit_price * quantity)

-- app/schemas/cart.py: `CartItem`
pub record CartItem : Type 0 where
  pub id : Uuid
  pub menu_item_id : Uuid
  pub name : String
  pub original_name : Option String
  pub quantity : ℕ
  pub unit_price : Option Money
  pub line_total : Option Money
  pub notes : Option String
  pub request_codes : List String
  pub is_available : Bool

-- app/schemas/cart.py: `Cart`
pub record CartView : Type 0 where
  pub id : Uuid
  pub restaurant_id : Uuid
  pub restaurant_name : String
  pub status : CartStatus
  pub serving_mode : ServingMode
  pub table_label : Option String
  pub menu_revision : ℕ
  pub version : ℕ
  pub items : List CartItem
  pub item_count : ℕ
  pub subtotal : Option Money
  pub updated_at : Time

-- The variables of the loop over the rows.
pub record Totals : Type 0 where
  pub subtotal : ℕ
  pub has_unknown_price : Bool
  pub item_count : ℕ
  pub result_items : List CartItem

unfoldable pub no_totals : Totals
no_totals = record { subtotal = 0; has_unknown_price = false; item_count = 0; result_items = [] }

abbrev pub amount_or_zero : Option ℕ → ℕ
amount_or_zero none = 0
amount_or_zero (some n) = n

unfoldable pub cart_item : String → Option String → CartRow → MenuItem → CartItem
unfolding translated_item money
cart_item currency locale row item = record {
  id = row.id;
  menu_item_id = row.menu_item_id;
  name = translated_item item locale;
  original_name = item.name_ko;
  quantity = row.quantity;
  unit_price = money_of currency row.unit_price_snapshot;
  line_total = money_of currency (line_total row.unit_price_snapshot row.quantity);
  notes = row.notes;
  request_codes = row.request_codes;
  is_available = item.is_available;
}

-- A round of the loop, before the rounds for the later rows; a row without an item is passed over.
unfoldable pub add_row : String → Option String → CartRow → Option MenuItem → Totals → Totals
unfolding cart_item
add_row currency locale row none later = later
add_row currency locale row (some item) later = record {
  subtotal = amount_or_zero (line_total row.unit_price_snapshot row.quantity) + later.subtotal;
  has_unknown_price =
      is_none (line_total row.unit_price_snapshot row.quantity) || later.has_unknown_price;
  item_count = row.quantity + later.item_count;
  result_items = cart_item currency locale row item ∷ later.result_items;
}

unfoldable pub total_rows : String → Option String → List MenuItem → List CartRow → Totals
unfolding no_totals add_row loaded_item
total_rows currency locale menu_items [] = no_totals
total_rows currency locale menu_items (row ∷ rows) =
    add_row currency locale row (loaded_item menu_items row.menu_item_id)
      (total_rows currency locale menu_items rows)

-- `None if has_unknown_price else money(subtotal, currency)`
abbrev pub known_subtotal : String → Bool → ℕ → Option Money
known_subtotal currency true subtotal = none
known_subtotal currency false subtotal = some (money currency subtotal)

unfoldable pub cart_view : Cart → Restaurant → Option String → Totals → CartView
unfolding money localized
cart_view cart restaurant locale totals = record {
  id = cart.id;
  restaurant_id = cart.restaurant_id;
  restaurant_name = localized restaurant.name_en restaurant.name_ko locale;
  status = cart.status;
  serving_mode = cart.serving_mode;
  table_label = cart.table_label;
  menu_revision = cart.menu_revision;
  version = cart.version;
  items = totals.result_items;
  item_count = totals.item_count;
  subtotal = known_subtotal restaurant.currency totals.has_unknown_price totals.subtotal;
  updated_at = cart.updated_at;
}

unfoldable pub serialize_cart : Db → Cart → Option String → Result CartServiceError CartView
unfolding restaurant_of load_menu_items total_rows cart_view
serialize_cart db cart locale = do
  restaurant ← or_raise (restaurant_of cart db) restaurant_not_found
  ok (
      cart_view cart restaurant locale
        (total_rows restaurant.currency locale (load_menu_items db cart) cart.items))
