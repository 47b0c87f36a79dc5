-- ===== src/Cart/Upsert.antt =====
-- What an upsert of app/services/cart.py leaves in the cart, and which calls of it are accepted.
use fofu_backend.Base.{
  ok, raise_if, ◌>>◌, Returns, Returns-raise_if, Returns-or_raise, Returns-elim, Returns-then,
  Returns-map, ℕ, Uuid, Time, ◌≡◌, refl, sym, ◌∙◌, true, not, Option, none, some, ◌==◌, ==_refl,
  ==_iff, is_empty, arith, find-passes, find-update_where, find-appended,
}
use fofu_backend.Cart.Rows.{
  MenuItem, CartRow, Cart, restaurant_not_found, menu_item_not_found, menu_item_unavailable,
  unsupported_request_code, menu_item_price_changed,
}
use fofu_backend.Cart.Service.{Db, same_price}
use fofu_backend.Cart.Change.{
  CartItemUpsert, restaurant_of, menu_item_by_id, row_of, put_row, check_price, validate_versions,
  unsupported_requests, upserted, bump,
}

-- The row holds what the client has sent, at the price that the item has.
abbrev pub IsUpserted : CartItemUpsert → MenuItem → CartRow → Type 0
IsUpserted payload item row =
    (row.menu_item_id ≡ item.id)
    × (row.quantity ≡ payload.quantity)
    × (row.notes ≡ payload.notes)
    × (row.request_codes ≡ payload.request_codes)
    × (same_price row.unit_price_snapshot item.price_amount ≡ true)

same_price_refl : (price : Option ℕ) → same_price price price ≡ true
same_price_refl none = refl
same_price_refl (some n) = ==_refl n

-- The item is on sale, and the cart has its row, as it was sent.
abbrev pub HasRow : Uuid → CartItemUpsert → MenuItem → Cart → Type 0
HasRow menu_item_id payload item next =
    (item.is_available ≡ true)
    × (row : CartRow) × (row_of menu_item_id next ≡ some row)
    × IsUpserted payload item row

module _ (id menu_item_id : Uuid) (payload : CartItemUpsert) where
  put_row-HasRow :
      (now : Time) (item : MenuItem) (cart : Cart) (o : Option CartRow)
      → item.id ≡ menu_item_id
      → item.is_available ≡ true
      → row_of menu_item_id cart ≡ o
      → Returns
          (HasRow menu_item_id payload item)
          (check_price item o >> ok (bump (put_row id item payload o cart.items) now cart))
  unfolding put_row row_of
  put_row-HasRow now item cart none same on_sale e = (
    on_sale,
    _,
    find-appended _ cart.items _ e (rw same (==_refl menu_item_id)),
    (refl, refl, refl, refl, same_price_refl item.price_amount),
  )
  put_row-HasRow now item cart (some row) same on_sale e =
      Returns-raise_if (HasRow menu_item_id payload item)
        (not (same_price row.unit_price_snapshot item.price_amount))
        (menu_item_price_changed item.id row.unit_price_snapshot item.price_amount) _
        (λ priced. (
          on_sale,
          record row {
            quantity = payload.quantity;
            notes = payload.notes;
            request_codes = payload.request_codes;
          },
          find-update_where _ (λ (r : CartRow). r.id == row.id) _ cart.items (λ x. refl)
              ∙ rw e (rw (==_refl row.id) refl),
          (
            (==_iff row.menu_item_id menu_item_id).0
                  (find-passes (λ (r : CartRow). r.menu_item_id == menu_item_id) cart.items e)
                ∙ sym same,
            refl,
            refl,
            refl,
            ground (arith, priced),
          ),
        ))

  upserted-HasRow :
      (now : Time) (cart : Cart) (db : Db)
      → Returns
          (λ next.
            (item : MenuItem) × (menu_item_by_id menu_item_id db ≡ some item)
            × HasRow menu_item_id payload item next)
          (upserted id menu_item_id payload now cart db)
  unfolding upserted
  upserted-HasRow now cart db =
      Returns-or_raise _ (restaurant_of cart db) restaurant_not_found _ (λ restaurant _.
        Returns-then _
          (validate_versions cart restaurant payload.expected_version
            payload.expected_menu_revision)
          _
          (Returns-or_raise _ (menu_item_by_id menu_item_id db) menu_item_not_found _ (λ item e.
            Returns-then _
              (raise_if (not (item.restaurant_id == cart.restaurant_id)) menu_item_not_found) _
              (Returns-raise_if _ (not item.is_available) (menu_item_unavailable item.id) _
                (λ on_sale.
                  Returns-then _
                    (raise_if (not (is_empty (unsupported_requests payload.request_codes)))
                      (unsupported_request_code (unsupported_requests payload.request_codes)))
                    _
                    (Returns-map (HasRow menu_item_id payload item) _ _ (λ next h. (item, e, h))
                      (put_row-HasRow now item cart (row_of menu_item_id cart) (same item e)
                        (ground (arith, on_sale)) refl)))))))
    where
      same :
          (item : MenuItem) → menu_item_by_id menu_item_id db ≡ some item → item.id ≡ menu_item_id
      same item e =
          unfold menu_item_by_id in
          (==_iff item.id menu_item_id).0
            (find-passes (λ (m : MenuItem). m.id == menu_item_id) db.menu_items e)

-- After an upsert that is made, the menu item is on sale, and the cart's row for it has the quantity,
-- the notes and the request codes that were sent, at the price that the item has.
pub upserted-row :
    (id menu_item_id : Uuid) (payload : CartItemUpsert) (now : Time) (cart : Cart) (db : Db)
    {next : Cart}
    → upserted id menu_item_id payload now cart db ≡ ok next
    → (item : MenuItem) × (menu_item_by_id menu_item_id db ≡ some item)
      × HasRow menu_item_id payload item next
upserted-row id menu_item_id payload now cart db h =
    Returns-elim
      (λ next.
        (item : MenuItem) × (menu_item_by_id menu_item_id db ≡ some item)
        × HasRow menu_item_id payload item next)
      (upserted id menu_item_id payload now cart db)
      (upserted-HasRow id menu_item_id payload now cart db) h
