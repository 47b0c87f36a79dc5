-- ===== src/Cart/OrderCard.antt =====
-- app/services/cart.py: `build_order_card` and `REQUEST_TRANSLATIONS`, with `OrderCard` of
-- app/schemas/cart.py.
use fofu_backend.Base.{
  Result, ok, raise_if, or_raise, ◌>>=◌, ◌>>◌, ℕ, ◌+◌, Uuid, Time, String, Bool, false, not, ◌||◌,
  Option, none, some, List, [], ◌∷◌, ◌++◌, map, ◌==◌, str_eq, is_none, is_empty, select, find,
  if◌then◌else◌,
}
use fofu_backend.Utils.Text.{decimal, join, ◌<>◌}
use fofu_backend.Utils.Locale.{is_blank, localized}
use fofu_backend.Cart.Rows.{
  CartServiceError, ServingMode, MenuItem, CartRow, Cart, FoodPassport, Restaurant, Review, removed,
  unavailable, price_changed, restaurant_not_found, empty_cart, cart_requires_review,
}
use fofu_backend.Cart.Service.{Db, same_price}
use fofu_backend.Cart.Change.{restaurant_of, validate_versions, has_code, request_keys}
use fofu_backend.Cart.Compatibility.{CompatibilityAssessment, compatibility}
use fofu_backend.Cart.Serialize.{
  Money, money, money_of, line_total, amount_or_zero, known_subtotal, load_menu_items, loaded_item,
  translated_item,
}

pub record OrderCardItem : Type 0 where
  pub menu_item_id : Uuid
  pub name : String
  pub original_name : String
  pub quantity : ℕ
  pub unit_price : Option Money
  pub line_total : Option Money
  pub notes : Option String
  pub request_codes : List String

pub data OrderCardStatus : Type 0 where
  preview prepared : OrderCardStatus

pub record OrderCard : Type 0 where
  pub order_id : Option Uuid
  pub status : OrderCardStatus
  pub cart_id : Uuid
  pub cart_version : ℕ
  pub menu_revision : ℕ
  pub restaurant_id : Uuid
  pub restaurant_name : String
  pub table_label : Option String
  pub serving_mode : ServingMode
  pub items : List OrderCardItem
  pub subtotal : Option Money
  pub total : Option Money
  pub korean_phrase : String
  pub translated_phrase : String
  pub request_note_ko : Option String
  pub request_note_localized : Option String
  pub compatibility : CompatibilityAssessment
  pub generated_at : Time

-- The entry of `conflicts` for a row, given the menu item it names.
unfoldable pub review_row : CartRow → Option MenuItem → List Review
review_row row none = removed row.menu_item_id ∷ []
review_row row (some item) =
    if not item.is_available
    then unavailable row.menu_item_id ∷ []
    else if not (same_price item.price_amount row.unit_price_snapshot)
    then price_changed row.menu_item_id row.unit_price_snapshot item.price_amount ∷ []
    else []

-- The first loop: `conflicts`.
unfoldable pub review : List MenuItem → List CartRow → List Review
unfolding review_row loaded_item
review menu_items [] = []
review menu_items (row ∷ rows) =
    review_row row (loaded_item menu_items row.menu_item_id) ++ review menu_items rows

-- The values of `REQUEST_TRANSLATIONS`, Korean and English.
unfoldable pub request_translation : String → String × String
request_translation code =
    if str_eq code "less_spicy"
    then ("덜 맵게 해 주세요", "Please make it less spicy")
    else if str_eq code "no_pork"
    then ("돼지고기는 빼 주세요", "Please leave out pork")
    else if str_eq code "no_peanuts"
    then ("땅콩은 빼 주세요", "Please leave out peanuts")
    else ("유제품은 빼 주세요", "Please leave out dairy")

abbrev pub korean_name : MenuItem → String
korean_name item = elim item.name_ko [
  | none ↦ item.name_en
  | some ko ↦ if is_blank ko then item.name_en else ko
]

-- The variables of the second loop.
pub record Parts : Type 0 where
  pub output_items : List OrderCardItem
  pub korean_parts : List String
  pub translated_parts : List String
  pub subtotal : ℕ
  pub has_unknown_price : Bool

unfoldable pub no_parts : Parts
no_parts = record {
  output_items = [];
  korean_parts = [];
  translated_parts = [];
  subtotal = 0;
  has_unknown_price = false;
}

unfoldable pub order_card_item : String → Option String → CartRow → MenuItem → OrderCardItem
unfolding translated_item money
order_card_item currency locale row item = record {
  menu_item_id = item.id;
  name = translated_item item locale;
  original_name = korean_name item;
  quantity = row.quantity;
  unit_price = money_of currency item.price_amount;
  line_total = money_of currency (line_total item.price_amount row.quantity);
  notes = row.notes;
  request_codes = row.request_codes;
}

-- A round of the second loop, before the rounds for the later rows. The first loop has made sure
-- that there is an item.
unfoldable pub add_part : String → Option String → CartRow → Option MenuItem → Parts → Parts
unfolding order_card_item translated_item decimal
add_part currency locale row none later = later
add_part currency locale row (some item) later = record {
  output_items = order_card_item currency locale row item ∷ later.output_items;
  korean_parts = (korean_name item <> " " <> decimal row.quantity <> "개") ∷ later.korean_parts;
  translated_parts =
      (translated_item item locale <> " × " <> decimal row.quantity) ∷ later.translated_parts;
  subtotal = amount_or_zero (line_total item.price_amount row.quantity) + later.subtotal;
  has_unknown_price =
      is_none (line_total item.price_amount row.quantity) || later.has_unknown_price;
}

unfoldable pub parts_of : String → Option String → List MenuItem → List CartRow → Parts
unfolding no_parts add_part loaded_item
parts_of currency locale menu_items [] = no_parts
parts_of currency locale menu_items (row ∷ rows) =
    add_part currency locale row (loaded_item menu_items row.menu_item_id)
      (parts_of currency locale menu_items rows)

-- `request_codes`: each code once, where it came first
unfoldable pub add_codes : List String → List String → List String
add_codes seen [] = seen
add_codes seen (c ∷ cs) = add_codes (if has_code seen c then seen else seen ++ c ∷ []) cs

unfoldable pub requested_codes : List String → List CartRow → List String
unfolding add_codes
requested_codes seen [] = seen
requested_codes seen (row ∷ rows) = requested_codes (add_codes seen row.request_codes) rows

-- `text or None`
abbrev pub nonempty : String → Option String
nonempty t = if is_blank t then none else some t

-- `known_requests`
unfoldable pub known_requests : List CartRow → List (String × String)
unfolding requested_codes request_translation
known_requests rows =
    map request_translation (select (has_code request_keys) (requested_codes [] rows))

abbrev pub status_of : Option Uuid → OrderCardStatus
status_of none = preview
status_of (some order_id) = prepared

-- `db.get(models.FoodPassport, cart.user_id)`
unfoldable pub passport_of : Cart → Db → Option FoodPassport
passport_of cart db = find (λ (p : FoodPassport). p.user_id == cart.user_id) db.passports

-- The card, from what the loops gave.
unfoldable pub order_card :
    Cart
    → Restaurant
    → Option String
    → Option Uuid
    → CompatibilityAssessment
    → Time
    → Parts
    → OrderCard
unfolding known_requests money localized join
order_card cart restaurant locale order_id assessment now parts = record {
  order_id = order_id;
  status = status_of order_id;
  cart_id = cart.id;
  cart_version = cart.version;
  menu_revision = cart.menu_revision;
  restaurant_id = restaurant.id;
  restaurant_name = localized restaurant.name_en restaurant.name_ko locale;
  table_label = cart.table_label;
  serving_mode = cart.serving_mode;
  items = parts.output_items;
  subtotal = known_subtotal restaurant.currency parts.has_unknown_price parts.subtotal;
  total = known_subtotal restaurant.currency parts.has_unknown_price parts.subtotal;
  korean_phrase = join ", " parts.korean_parts <> " 주세요";
  translated_phrase = join ", " parts.translated_parts <> ", please";
  request_note_ko =
      nonempty (join ". " (map (λ (v : String × String). v.0) (known_requests cart.items)));
  request_note_localized =
      nonempty (join ". " (map (λ (v : String × String). v.1) (known_requests cart.items)));
  compatibility = assessment;
  generated_at = now;
}

module _ (strip casefold : String → String) where
  unfoldable pub build_order_card :
      Option String
      → Option ℕ
      → Option ℕ
      → Option Uuid
      → Time
      → Db
      → Cart
      → Result CartServiceError OrderCard
  unfolding restaurant_of validate_versions load_menu_items review parts_of passport_of
      compatibility order_card
  build_order_card locale expected_version expected_menu_revision order_id now db cart = do
    restaurant ← or_raise (restaurant_of cart db) restaurant_not_found
    validate_versions cart restaurant expected_version expected_menu_revision
    raise_if (is_empty cart.items) empty_cart
    let menu_items = load_menu_items db cart
    raise_if (not (is_empty (review menu_items cart.items)))
        (cart_requires_review (review menu_items cart.items))
    let assessment = compatibility strip casefold (passport_of cart db) menu_items
    ok (
        order_card cart restaurant locale order_id assessment now
          (parts_of restaurant.currency locale menu_items cart.items))
