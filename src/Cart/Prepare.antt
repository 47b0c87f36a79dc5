-- ===== src/Cart/Prepare.antt =====
-- app/services/cart.py: `prepare_order_card`, with the tables `orders` and `order_items` of
-- app/models.py. The digest of a request's canonical text (`json.dumps` and `hashlib`) is a
-- parameter.
use fofu_backend.Base.{
  Result, ok, err, ◌>>=◌, ℕ, Uuid, Time, String, Bool, ◌&&◌, Option, none, some, List, [], ◌∷◌,
  ◌++◌, map, ◌==◌, str_eq, any, find, if◌then◌else◌,
}
use fofu_backend.Utils.Locale.{normalize_locale}
use fofu_backend.Cart.Rows.{
  CartServiceError, ServingMode, Restaurant, Cart, restaurant_not_found, idempotency_key_conflict,
  integrity_error,
}
use fofu_backend.Cart.Service.{Db}
use fofu_backend.Cart.Change.{restaurant_of}
use fofu_backend.Cart.Serialize.{Money}
use fofu_backend.Cart.OrderCard.{OrderCard, OrderCardItem, build_order_card, prepared}

pub record Order : Type 0 where
  pub id : Uuid
  pub user_id : Uuid
  pub restaurant_id : Uuid
  pub serving_mode : ServingMode
  pub subtotal_amount : Option ℕ
  pub total_amount : Option ℕ
  pub currency : String
  pub korean_phrase : String
  pub translated_phrase : String
  pub allergy_note_ko : Option String
  pub allergy_note_localized : Option String
  pub idempotency_key : String
  pub request_fingerprint : String
  -- The column holds the card as JSON; writing it (`model_dump`) and reading it (`model_validate`) are
  -- pydantic's, and taken to give the card back.
  pub response_snapshot : OrderCard

pub record OrderItem : Type 0 where
  pub order_id : Uuid
  pub menu_item_id : Uuid
  pub name_en_snapshot : String
  pub name_ko_snapshot : String
  pub unit_price_amount : Option ℕ
  pub quantity : ℕ
  pub notes : Option String

pub record Orders : Type 0 where
  pub orders : List Order
  pub order_items : List OrderItem

-- Columns of the table's unique constraint.
abbrev pub is_order_for : Uuid → String → Order → Bool
is_order_for user_id idempotency_key o =
    o.user_id == user_id && str_eq o.idempotency_key idempotency_key

unfoldable pub idempotent_order : Uuid → String → Orders → Option Order
idempotent_order user_id idempotency_key db = find (is_order_for user_id idempotency_key) db.orders

unfoldable pub replay_order_card : Order → String → Result CartServiceError OrderCard
replay_order_card order fingerprint =
    if str_eq order.request_fingerprint fingerprint
    then ok order.response_snapshot
    else err idempotency_key_conflict

abbrev pub amount_of : Option Money → Option ℕ
amount_of none = none
amount_of (some m) = some m.amount

-- The currency of the first item with a known price.
unfoldable pub item_currency : List OrderCardItem → Option String
item_currency [] = none
item_currency (i ∷ items) = elim i.unit_price [
  | none ↦ item_currency items
  | some price ↦ some price.currency
]

-- The two ways in which `currency` is found in the preview.
unfoldable pub preview_currency : OrderCard → Option String
unfolding item_currency
preview_currency card = elim card.total [
  | none ↦ item_currency card.items
  | some total ↦ some total.currency
]

abbrev pub currency_or : Option String → Option Restaurant → Result CartServiceError String
currency_or (some currency) restaurant = ok currency
currency_or none none = err restaurant_not_found
currency_or none (some restaurant) = ok restaurant.currency

abbrev pub order_item : Uuid → OrderCardItem → OrderItem
order_item order_id row = record {
  order_id = order_id;
  menu_item_id = row.menu_item_id;
  name_en_snapshot = row.name;
  name_ko_snapshot = row.original_name;
  unit_price_amount = amount_of row.unit_price;
  quantity = row.quantity;
  notes = row.notes;
}

unfoldable pub insert_order : Order → List OrderCardItem → Orders → Orders
insert_order order rows db = record {
  orders = db.orders ++ order ∷ [];
  order_items = db.order_items ++ map (order_item order.id) rows;
}

-- What the commit meets.
pub data Commit : Type 0 where
  -- the insertion holds unless the unique constraint is broken
  commits : Commit
  -- another constraint is broken
  breaks_constraint : Commit

-- `preview.model_copy(update={"order_id": order_id, "status": "prepared"})`
abbrev pub prepared_card : Uuid → OrderCard → OrderCard
prepared_card order_id card = record card { order_id = some order_id; status = prepared }

abbrev pub new_order : Uuid → String → String → String → Cart → OrderCard → Order
new_order order_id idempotency_key fingerprint currency cart card = record {
  id = order_id;
  user_id = cart.user_id;
  restaurant_id = cart.restaurant_id;
  serving_mode = cart.serving_mode;
  subtotal_amount = amount_of card.subtotal;
  total_amount = amount_of card.total;
  currency = currency;
  korean_phrase = card.korean_phrase;
  translated_phrase = card.translated_phrase;
  allergy_note_ko = card.request_note_ko;
  allergy_note_localized = card.request_note_localized;
  idempotency_key = idempotency_key;
  request_fingerprint = fingerprint;
  response_snapshot = prepared_card order_id card;
}

abbrev pub replay_or_raise : Option Order → String → Result CartServiceError OrderCard
replay_or_raise none fingerprint = err integrity_error
replay_or_raise (some order) fingerprint = replay_order_card order fingerprint

unfoldable pub saved :
    Commit → Order → List OrderCardItem → Orders → Orders × Result CartServiceError OrderCard
unfolding insert_order
saved commits order rows db = (insert_order order rows db, ok order.response_snapshot)
saved breaks_constraint order rows db = (db, err integrity_error)

-- `db.commit()` and what is done with an `IntegrityError`: the unique constraint is broken by an
-- order that has been committed since the first query.
unfoldable pub commit_order :
    Commit → Order → List OrderCardItem → Orders → Orders × Result CartServiceError OrderCard
unfolding idempotent_order saved
commit_order outcome order rows db =
    if any (is_order_for order.user_id order.idempotency_key) db.orders
    then (
      db,
      replay_or_raise (idempotent_order order.user_id order.idempotency_key db)
          order.request_fingerprint,
    )
    else saved outcome order rows db

-- What the preview has been made into is committed.
unfoldable pub commit_new :
    Commit
    → Result CartServiceError (Order × List OrderCardItem)
    → Orders
    → Orders × Result CartServiceError OrderCard
unfolding commit_order
commit_new outcome (err e) db = (db, err e)
commit_new outcome (ok (order, rows)) db = commit_order outcome order rows db

-- The arguments of `prepare_order_card`, with the id of a new order and the clock.
pub record PrepareRequest : Type 0 where
  pub locale : Option String
  pub idempotency_key : String
  pub expected_version : Option ℕ
  pub expected_menu_revision : Option ℕ
  pub order_id : Uuid
  pub now : Time

module _ (strip casefold : String → String)
    (digest : Uuid → Option ℕ → Option ℕ → String → String) where
  -- `_order_card_request_fingerprint`
  unfoldable pub order_card_request_fingerprint : Uuid → Option ℕ → Option ℕ → String → String
  unfolding normalize_locale
  order_card_request_fingerprint cart_id expected_version expected_menu_revision locale =
      digest cart_id expected_menu_revision expected_version (normalize_locale (some locale))

  -- `fingerprint`
  unfoldable pub fingerprint_of : PrepareRequest → Cart → String
  unfolding order_card_request_fingerprint normalize_locale
  fingerprint_of request cart =
      order_card_request_fingerprint cart.id request.expected_version request.expected_menu_revision
        (normalize_locale request.locale)

  -- The card, its currency and the order before the commit.
  unfoldable pub new_order_of :
      PrepareRequest → Db → Cart → Result CartServiceError (Order × List OrderCardItem)
  unfolding build_order_card normalize_locale preview_currency restaurant_of fingerprint_of
  new_order_of request db cart = do
    card ←
        build_order_card strip casefold (some (normalize_locale request.locale))
          request.expected_version request.expected_menu_revision none request.now db cart
    currency ← currency_or (preview_currency card) (restaurant_of cart db)
    ok (
      new_order request.order_id request.idempotency_key (fingerprint_of request cart) currency cart
          card,
      card.items,
    )

  -- `prepare_order_card`, given what its first query found
  unfoldable pub replay_or_create :
      PrepareRequest
      → Commit
      → Db
      → Cart
      → Orders
      → Option Order
      → Orders × Result CartServiceError OrderCard
  unfolding replay_order_card fingerprint_of new_order_of commit_new
  replay_or_create request outcome db cart committed (some existing) =
      (committed, replay_order_card existing (fingerprint_of request cart))
  replay_or_create request outcome db cart committed none =
      commit_new outcome (new_order_of request db cart) committed

  -- `prepare_order_card`: the first query sees the orders `seen`, and the commit meets the orders
  -- `committed`, which other requests may have added to since.
  unfoldable pub prepare_order_card :
      PrepareRequest
      → Commit
      → Db
      → Cart
      → Orders
      → Orders
      → Orders × Result CartServiceError OrderCard
  unfolding replay_or_create idempotent_order
  prepare_order_card request outcome db cart seen committed =
      replay_or_create request outcome db cart committed
        (idempotent_order cart.user_id request.idempotency_key seen)
