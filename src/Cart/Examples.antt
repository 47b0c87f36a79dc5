-- ===== src/Cart/Examples.antt =====
-- app/services/cart.py at a concrete state: one guest with a cart of one dish.
use fofu_backend.Base.{
  ok, err, if-split, ◌+◌, ◌≤◌, ℕ, Uuid, String, ◌≡◌, refl, true, Option, none, some, [], ◌∷◌,
  count_if, arith, All, length, any, find, select, update_where, str_eq, if◌then◌else◌,
}
use fofu_backend.Cart.Rows.{
  active, dine_in, takeout, MenuItem, Restaurant, CartRow, Cart, FoodPassport,
  cart_version_conflict, idempotency_key_conflict,
}
use fofu_backend.Cart.Service.{Db, is_current, get_current_cart, get_or_create_cart}
use fofu_backend.Cart.Change.{
  CartItemUpsert, restaurant_of, menu_item_by_id, upserted, insert_code, sorted_set, restaurant_of,
}
use fofu_backend.Cart.Compatibility.{
  compatibility, conflict, ingredient, ingredient_aliases, normalize_code,
}
use fofu_backend.Cart.Serialize.{Money, CartView, serialize_cart, money_of, load_menu_items}
use fofu_backend.Cart.OrderCard.{OrderCard, preview, prepared, build_order_card}
use fofu_backend.Cart.Prepare.{Orders, commits, PrepareRequest, prepare_order_card, fingerprint_of}
use fofu_backend.Cart.Locking.{
  Change, upsert, settings, changed, change_cart, expected_version_of, IsNext, changed-version,
}
use fofu_backend.Cart.Requests.{handle_change, unversioned, handle_change-second}
use fofu_backend.Cart.Items.{IsDistinct, changed-IsDistinct}
use fofu_backend.Cart.Upsert.{HasRow, upserted-row}
use fofu_backend.Cart.Review.{
  IsOnSale, rows_subtotal, build_order_card-reviewed, build_order_card-serialize_cart,
}
use fofu_backend.Cart.Idempotency.{prepare_order_card-again}
use fofu_backend.Cart.Current.{IsSingle, IsAskedFor, get_or_create_cart-IsSingle}
use fofu_backend.Cart.Hazards.{is_conflict, is_hazard, compatibility-conflict}

abbrev dish : MenuItem
dish = record {
  id = 11;
  restaurant_id = 1;
  name_en = "Kimchi stew";
  name_ko = some "김치찌개";
  price_amount = some 9000;
  is_available = true;
  translations = record { locale = "fr"; name = "Ragoût de kimchi" } ∷ [];
  ingredient_links = "pork_belly" ∷ [];
  allergen_links =
      record { allergen_code = "soy"; relation_type = "contains"; verification_status = "verified" }
      ∷ [];
  dietary_claims = [];
}

abbrev restaurant : Restaurant
restaurant = record {
  id = 1;
  owner_user_id = none;
  is_published = true;
  name_en = "Fofu";
  name_ko = none;
  currency = "KRW";
  menu_revision = 4;
}

abbrev row : CartRow
row = record {
  id = 21;
  menu_item_id = 11;
  quantity = 2;
  unit_price_snapshot = some 9000;
  notes = none;
  request_codes = "no_pork" ∷ [];
}

abbrev cart : Cart
cart = record {
  id = 5;
  user_id = 7;
  restaurant_id = 1;
  status = active;
  serving_mode = dine_in;
  table_label = some "A1";
  menu_revision = 4;
  version = 3;
  updated_at = 0;
  items = row ∷ [];
}

abbrev passport : FoodPassport
passport = record {
  user_id = 7;
  diet_codes = [];
  avoid_allergen_codes = [];
  avoid_ingredient_codes = "pork" ∷ [];
}

abbrev db : Db
db = record {
  restaurants = restaurant ∷ [];
  menu_items = dish ∷ [];
  carts = cart ∷ [];
  passports = passport ∷ [];
}

abbrev payload : CartItemUpsert
payload = record {
  quantity = 3;
  notes = some "please";
  request_codes = "less_spicy" ∷ [];
  expected_version = some 3;
  expected_menu_revision = some 4;
}

abbrev more : Cart
more = record cart {
  version = 4;
  updated_at = 10;
  items =
      record row { quantity = 3; notes = some "please"; request_codes = "less_spicy" ∷ [] } ∷ [];
}

upserted-more : upserted 22 11 payload 10 cart db ≡ ok more
unfolding upserted find update_where any select sorted_set insert_code
upserted-more = refl

changed-more : changed (upsert 22 11 payload) 10 cart db ≡ ok more
unfolding changed
changed-more = upserted-more

changed-version_example : IsNext (expected_version_of (upsert 22 11 payload)) cart more
changed-version_example = changed-version (upsert 22 11 payload) 10 cart db changed-more

abbrev first : Change
first = upsert 22 11 payload

abbrev second : Change
second = settings takeout (some 3) none

abbrev changed_tables : Db
changed_tables = record db { carts = more ∷ [] }

handle_change-more : handle_change first 10 7 1 db ≡ (changed_tables, ok more)
unfolding handle_change get_current_cart change_cart find update_where any select sorted_set
    insert_code
handle_change-more = refl

handle_change-second_example :
    (handle_change second 20 7 1 changed_tables ≡ (changed_tables, err (cart_version_conflict 3 4)))
    × (changed second 20 cart changed_tables ≡ changed (unversioned second) 20 cart changed_tables)
unfolding select
handle_change-second_example =
    handle_change-second first second 10 20 7 1 db changed_tables {cart = cart} {answer = more}
      (λ u r. unfold count_if in ground arith) (unfold count_if in omega arith)
      (unfold get_current_cart in refl) handle_change-more (unfold expected_version_of in refl)

changed-IsDistinct_example : IsDistinct more.items
changed-IsDistinct_example =
    changed-IsDistinct (upsert 22 11 payload) 10 cart db (tt, tt) changed-more

upserted-row_example :
    (item : MenuItem) × (menu_item_by_id 11 db ≡ some item) × HasRow 11 payload item more
upserted-row_example = upserted-row 22 11 payload 10 cart db upserted-more

-- In place of the language's functions: the texts here need no change.
abbrev same : String → String
same t = t

abbrev won : ℕ → String → Money
won amount formatted = record { amount = amount; currency = "KRW"; formatted = formatted }

abbrev card : OrderCard
card = record {
  order_id = none;
  status = preview;
  cart_id = 5;
  cart_version = 3;
  menu_revision = 4;
  restaurant_id = 1;
  restaurant_name = "Fofu";
  table_label = some "A1";
  serving_mode = dine_in;
  items =
      record {
        menu_item_id = 11;
        name = "Kimchi stew";
        original_name = "김치찌개";
        quantity = 2;
        unit_price = some (won 9000 "₩9,000");
        line_total = some (won 18000 "₩18,000");
        notes = none;
        request_codes = "no_pork" ∷ [];
      }
      ∷ [];
  subtotal = some (won 18000 "₩18,000");
  total = some (won 18000 "₩18,000");
  korean_phrase = "김치찌개 2개 주세요";
  translated_phrase = "Kimchi stew × 2, please";
  request_note_ko = some "돼지고기는 빼 주세요";
  request_note_localized = some "Please leave out pork";
  compatibility = record {
    status = conflict;
    reasons =
        record {
          code = "pork";
          kind = ingredient;
          message = "Kimchi stew contains an ingredient you avoid: pork.";
          menu_item_id = 11;
          relationship = some "contains";
        }
        ∷ [];
  };
  generated_at = 30;
}

built : build_order_card same same (some "en") none none none 30 db cart ≡ ok card
unfolding build_order_card find any select insert_code ingredient_aliases normalize_code
built = refl

build_order_card-reviewed_example :
    All (IsOnSale (load_menu_items db cart)) cart.items
    × (length card.items ≡ length cart.items)
    × ((r : Restaurant) × (restaurant_of cart db ≡ some r)
        × (card.subtotal ≡ money_of r.currency (rows_subtotal cart.items)))
build_order_card-reviewed_example =
    build_order_card-reviewed same same (some "en") none none none 30 db cart built

build_order_card-serialize_cart_example :
    (view : CartView) × (serialize_cart db cart (some "fr") ≡ ok view)
    × (view.subtotal ≡ card.subtotal)
    × (length view.items ≡ length card.items)
build_order_card-serialize_cart_example =
    build_order_card-serialize_cart same same (some "en") (some "fr") none none none 30 db cart
      built

compatibility-conflict_example :
    is_conflict (compatibility same same (some passport) (dish ∷ [])).status
    ≡ any (is_hazard same same passport) (dish ∷ [])
compatibility-conflict_example = compatibility-conflict same same passport (dish ∷ [])

abbrev request : String → PrepareRequest
request locale = record {
  locale = some locale;
  idempotency_key = "key-12345";
  expected_version = some 3;
  expected_menu_revision = none;
  order_id = 40;
  now = 30;
}

abbrev no_orders : Orders
no_orders = record { orders = []; order_items = [] }

-- In place of the digest: the locale, in which the requests below differ.
abbrev digest : Uuid → Option ℕ → Option ℕ → String → String
digest cart_id revision version locale = locale

abbrev kept : Orders
kept = (prepare_order_card same same digest (request "en") commits db cart no_orders no_orders).0

prepared_kept :
    prepare_order_card same same digest (request "en") commits db cart no_orders no_orders
    ≡ (kept, ok (record card { order_id = some 40; status = prepared }))
unfolding prepare_order_card find any select insert_code ingredient_aliases normalize_code
prepared_kept = refl

prepare_order_card-again_example :
    prepare_order_card same same digest
      (request "fr")
      commits
      db
      (record cart { version = 9 })
      kept
      kept
    ≡ (
      kept,
      if str_eq
            (fingerprint_of same same digest (request "en") cart)
            (fingerprint_of same same digest (request "fr") (record cart { version = 9 }))
          then ok (record card { order_id = some 40; status = prepared })
          else err idempotency_key_conflict,
    )
prepare_order_card-again_example =
    prepare_order_card-again same same digest (request "en") (request "fr") commits commits db db
      cart (record cart { version = 9 }) no_orders no_orders kept []
      (record card { order_id = some 40; status = prepared }) refl prepared_kept refl refl

get_or_create_cart-IsSingle_example :
    let (db', cart') = get_or_create_cart 6 7 restaurant (some "B2") 4 50 db in
    IsSingle db' × IsAskedFor 7 1 (some "B2") 4 cart'
get_or_create_cart-IsSingle_example =
    get_or_create_cart-IsSingle 6 7 restaurant (some "B2") 4 50 db single
  where
    single : IsSingle db
    single user_id restaurant_id =
        unfold count_if in
        if-split (λ (n : ℕ). n + 0 ≤ 1) (is_current user_id restaurant_id cart) (λ _. omega arith)
          (λ _. omega arith)
