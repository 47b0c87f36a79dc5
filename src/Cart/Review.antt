-- ===== src/Cart/Review.antt =====
-- The order card of app/services/cart.py is made only of a cart that needs no review, and shows its
-- subtotal.
use fofu_backend.Base.{
  ok, raise_if, Returns, Returns-raise_if, Returns-or_raise, Returns-elim, Returns-then, ℕ, suc,
  ◌+◌, Uuid, Time, String, ◌≡◌, refl, ap, sym, ◌∙◌, Bool, true, false, not, ◌||◌, Option, none,
  some, List, [], ◌∷◌, ◌++◌, ==_iff, is_none, is_empty, length, arith, All,
}
use fofu_backend.Cart.Rows.{
  MenuItem, Restaurant, CartRow, Cart, restaurant_not_found, empty_cart, cart_requires_review,
}
use fofu_backend.Cart.Service.{Db, same_price}
use fofu_backend.Cart.Change.{restaurant_of, validate_versions}
use fofu_backend.Cart.Serialize.{
  money_of, line_total, amount_or_zero, known_subtotal, load_menu_items, loaded_item, total_rows,
  add_row, CartView, cart_view, serialize_cart,
}
use fofu_backend.Cart.OrderCard.{
  OrderCard, review_row, review, parts_of, add_part, order_card, build_order_card,
}

-- The sum of two amounts, where both are known.
unfoldable pub add_known : Option ℕ → Option ℕ → Option ℕ
add_known none b = none
add_known (some a) none = none
add_known (some a) (some b) = some (a + b)

-- The subtotal of the rows at the prices they were added at, unknown as soon as one price is.
unfoldable pub rows_subtotal : List CartRow → Option ℕ
unfolding add_known
rows_subtotal [] = some 0
rows_subtotal (row ∷ rows) =
    add_known (line_total row.unit_price_snapshot row.quantity) (rows_subtotal rows)

-- What the loops keep in `has_unknown_price` and `subtotal`.
abbrev known : Bool → ℕ → Option ℕ
known true n = none
known false n = some n

known_subtotal-known :
    (currency : String) (b : Bool) (n : ℕ)
    → known_subtotal currency b n ≡ money_of currency (known b n)
known_subtotal-known currency true n = refl
known_subtotal-known currency false n = refl

known-add :
    (l : Option ℕ) (b : Bool) (n : ℕ)
    → known (is_none l || b) (amount_or_zero l + n) ≡ add_known l (known b n)
unfolding add_known
known-add none b n = refl
known-add (some a) true n = refl
known-add (some a) false n = refl

same_price-≡ : (a b : Option ℕ) → same_price a b ≡ true → a ≡ b
same_price-≡ none none h = refl
same_price-≡ none (some b) h = ground arith
same_price-≡ (some a) none h = ground arith
same_price-≡ (some a) (some b) h = ap (λ n. some n) ((==_iff a b).0 h)

is_empty-append {ℓ} :
    {A : Type ℓ} (xs ys : List A)
    → is_empty (xs ++ ys) ≡ true
    → (is_empty xs ≡ true) × (is_empty ys ≡ true)
is_empty-append [] ys h = (refl, h)
is_empty-append (x ∷ xs) ys h = ground arith

-- The row's item is there and on sale, at the price of the row.
abbrev pub IsOnSale : List MenuItem → CartRow → Type 0
IsOnSale menu_items row =
    (item : MenuItem) × (loaded_item menu_items row.menu_item_id ≡ some item)
    × (item.is_available ≡ true)
    × (item.price_amount ≡ row.unit_price_snapshot)

review_row-empty :
    (row : CartRow) (o : Option MenuItem)
    → is_empty (review_row row o) ≡ true
    → (item : MenuItem) × (o ≡ some item)
      × (item.is_available ≡ true)
      × (item.price_amount ≡ row.unit_price_snapshot)
unfolding review_row
review_row-empty row none h = absurd (ground arith)
review_row-empty row (some item) h = (
  item,
  refl,
  ground (arith, h),
  same_price-≡ item.price_amount row.unit_price_snapshot (ground (arith, h)),
)

review-empty :
    (menu_items : List MenuItem) (rows : List CartRow)
    → is_empty (review menu_items rows) ≡ true
    → All (IsOnSale menu_items) rows
unfolding review
review-empty menu_items [] h = tt
review-empty menu_items (row ∷ rows) h =
    let (here, later) =
      is_empty-append (review_row row (loaded_item menu_items row.menu_item_id)) _ h in
    (
      review_row-empty row (loaded_item menu_items row.menu_item_id) here,
      review-empty menu_items rows later,
    )

module _ (currency : String) (locale : Option String) (menu_items : List MenuItem) where
  parts_of-subtotal :
      (rows : List CartRow)
      → All (IsOnSale menu_items) rows
      → (known
            (parts_of currency locale menu_items rows).has_unknown_price
            (parts_of currency locale menu_items rows).subtotal
          ≡ rows_subtotal rows)
        × (length (parts_of currency locale menu_items rows).output_items ≡ length rows)
  unfolding parts_of add_part rows_subtotal
  parts_of-subtotal [] h = (refl, refl)
  parts_of-subtotal (row ∷ rows) ((item, found, on_sale, price), later) =
      let rest = parts_of-subtotal rows later in
      rw found (
        known-add (line_total item.price_amount row.quantity) _ _ ∙ rw (price, rest.0) refl,
        ap (λ n. suc n) rest.1,
      )

  total_rows-subtotal :
      (rows : List CartRow)
      → All (IsOnSale menu_items) rows
      → (known
            (total_rows currency locale menu_items rows).has_unknown_price
            (total_rows currency locale menu_items rows).subtotal
          ≡ rows_subtotal rows)
        × (length (total_rows currency locale menu_items rows).result_items ≡ length rows)
  unfolding total_rows add_row rows_subtotal
  total_rows-subtotal [] h = (refl, refl)
  total_rows-subtotal (row ∷ rows) ((item, found, on_sale, price), later) =
      let rest = total_rows-subtotal rows later in
      rw found (
        known-add (line_total row.unit_price_snapshot row.quantity) _ _ ∙ rw rest.0 refl,
        ap (λ n. suc n) rest.1,
      )

module _ (strip casefold : String → String) (locale : Option String) (version revision : Option ℕ)
    (order_id : Option Uuid) (now : Time) (db : Db) (cart : Cart) where
  abbrev IsPriced : OrderCard → Type 0
  IsPriced card =
      All (IsOnSale (load_menu_items db cart)) cart.items
      × (length card.items ≡ length cart.items)
      × ((r : Restaurant) × (restaurant_of cart db ≡ some r)
          × (card.subtotal ≡ money_of r.currency (rows_subtotal cart.items)))

  build_order_card-IsPriced :
      Returns IsPriced
        (build_order_card strip casefold locale version revision order_id now db cart)
  unfolding build_order_card order_card
  build_order_card-IsPriced =
      let menu_items = load_menu_items db cart in
      Returns-or_raise IsPriced (restaurant_of cart db) restaurant_not_found _ (λ r found.
        Returns-then IsPriced (validate_versions cart r version revision) _ (
          Returns-then IsPriced (raise_if (is_empty cart.items) empty_cart) _ (
            Returns-raise_if IsPriced (not (is_empty (review menu_items cart.items)))
              (cart_requires_review (review menu_items cart.items)) _
              (λ e.
                let on_sale = review-empty menu_items cart.items (ground (arith, e)) in
                let parts = parts_of-subtotal r.currency locale menu_items cart.items on_sale in
                (
                  on_sale,
                  parts.1,
                  (
                    r,
                    found,
                    known_subtotal-known r.currency _ _ ∙ ap (money_of r.currency) parts.0,
                  ),
                )))))

-- Where an order card is built, the menu item of each row of the cart is there, is on sale and has
-- the price of the row; the card has as many items as the cart; and its subtotal is the sum of the
-- rows' prices times their quantities in the restaurant's currency, or unknown where one price is.
pub build_order_card-reviewed :
    (strip casefold : String → String) (locale : Option String) (version revision : Option ℕ)
    (order_id : Option Uuid) (now : Time) (db : Db) (cart : Cart) {card : OrderCard}
    → build_order_card strip casefold locale version revision order_id now db cart ≡ ok card
    → All (IsOnSale (load_menu_items db cart)) cart.items
      × (length card.items ≡ length cart.items)
      × ((r : Restaurant) × (restaurant_of cart db ≡ some r)
          × (card.subtotal ≡ money_of r.currency (rows_subtotal cart.items)))
build_order_card-reviewed strip casefold locale version revision order_id now db cart h =
    Returns-elim (IsPriced strip casefold locale version revision order_id now db cart) _
      (build_order_card-IsPriced strip casefold locale version revision order_id now db cart) h

-- Where an order card is built, the cart that is shown to the guest has the subtotal of the card and
-- as many items.
pub build_order_card-serialize_cart :
    (strip casefold : String → String) (locale shown : Option String) (version revision : Option ℕ)
    (order_id : Option Uuid) (now : Time) (db : Db) (cart : Cart) {card : OrderCard}
    → build_order_card strip casefold locale version revision order_id now db cart ≡ ok card
    → (view : CartView) × (serialize_cart db cart shown ≡ ok view)
      × (view.subtotal ≡ card.subtotal)
      × (length view.items ≡ length card.items)
unfolding serialize_cart cart_view
build_order_card-serialize_cart strip casefold locale shown version revision order_id now db cart
      {card} h =
    let (on_sale, same_length, (r, found, subtotal)) =
      build_order_card-reviewed strip casefold locale version revision order_id now db cart h in
    let totals =
      total_rows-subtotal r.currency shown (load_menu_items db cart) cart.items on_sale in
    (
      cart_view cart r shown (total_rows r.currency shown (load_menu_items db cart) cart.items),
      rw found refl,
      known_subtotal-known r.currency _ _ ∙ ap (money_of r.currency) totals.0 ∙ sym subtotal,
      totals.1 ∙ sym same_length,
    )
