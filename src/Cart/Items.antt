-- ===== src/Cart/Items.antt =====
-- The rows of a cart in app/services/cart.py: one for a menu item, and what an upsert leaves in it.
use fofu_backend.Base.{
  ok, raise_if, Returns, Returns-or_raise, Returns-elim, Returns-then, Uuid, Time, ◌≡◌, refl, Bool,
  false, not, Option, none, some, List, [], ◌∷◌, ◌++◌, ◌==◌, ==_iff, is_empty, arith, if-split,
  if◌then◌else◌, find, find-passes, update_where, delete_where, All, All-append, All-delete_where,
}
use fofu_backend.Cart.Rows.{
  MenuItem, CartRow, Cart, restaurant_not_found, menu_item_not_found, menu_item_unavailable,
  unsupported_request_code, cart_item_not_found,
}
use fofu_backend.Cart.Service.{Db}
use fofu_backend.Cart.Change.{
  CartItemUpsert, restaurant_of, menu_item_by_id, row_of, put_row, check_price, validate_versions,
  unsupported_requests, upserted, deleted, resettled,
}
use fofu_backend.Cart.Locking.{Change, upsert, delete, settings, changed}

-- The row is for another menu item than `r`.
abbrev pub IsApart : CartRow → CartRow → Type 0
IsApart r x = (x.menu_item_id == r.menu_item_id) ≡ false

-- No two rows are for one menu item.
abbrev pub IsDistinct : List CartRow → Type 0
IsDistinct [] = Unit
IsDistinct (r ∷ rows) = All (IsApart r) rows × IsDistinct rows

IsApart-update :
    (r r' : CartRow) (p : CartRow → Bool) (f : CartRow → CartRow) (rows : List CartRow)
    → ((x : CartRow) → (f x).menu_item_id ≡ x.menu_item_id)
    → r'.menu_item_id ≡ r.menu_item_id
    → All (IsApart r) rows
    → All (IsApart r') (update_where p f rows)
unfolding update_where
IsApart-update r r' p f [] keep e h = tt
IsApart-update r r' p f (x ∷ rows) keep e h = (
  if-split (IsApart r') (p x) (λ _. rw (keep x, e) h.0) (λ _. rw e h.0),
  IsApart-update r r' p f rows keep e h.1,
)

IsDistinct-update :
    (p : CartRow → Bool) (f : CartRow → CartRow) (rows : List CartRow)
    → ((x : CartRow) → (f x).menu_item_id ≡ x.menu_item_id)
    → IsDistinct rows
    → IsDistinct (update_where p f rows)
unfolding update_where
IsDistinct-update p f [] keep h = tt
IsDistinct-update p f (x ∷ rows) keep h = (
  IsApart-update x (if p x then f x else x) p f rows keep
      (if-split (λ (y : CartRow). y.menu_item_id ≡ x.menu_item_id) (p x) (λ _. keep x) (λ _. refl))
      h.0,
  IsDistinct-update p f rows keep h.1,
)

IsDistinct-delete :
    (p : CartRow → Bool) (rows : List CartRow) → IsDistinct rows → IsDistinct (delete_where p rows)
unfolding delete_where
IsDistinct-delete p [] h = tt
IsDistinct-delete p (x ∷ rows) h =
    let rest = IsDistinct-delete p rows h.1 in
    if-split IsDistinct (p x) (λ _. rest) (λ _. (All-delete_where (IsApart x) p rows h.0, rest))

-- A row for a menu item that no row is for is appended.
IsDistinct-append :
    (y : CartRow) (rows : List CartRow)
    → find (λ (r : CartRow). r.menu_item_id == y.menu_item_id) rows ≡ none
    → IsDistinct rows
    → IsDistinct (rows ++ y ∷ [])
unfolding find
IsDistinct-append y [] e h = (tt, tt)
IsDistinct-append y (x ∷ rows) e h = (
  All-append (IsApart x) rows (y ∷ []) h.0 (ground arith, tt),
  IsDistinct-append y rows (ground arith) h.1,
)

module _ (id : Uuid) (payload : CartItemUpsert) where
  put_row-IsDistinct :
      (item : MenuItem) (cart : Cart) (o : Option CartRow)
      → row_of item.id cart ≡ o
      → IsDistinct cart.items
      → IsDistinct (put_row id item payload o cart.items)
  unfolding put_row row_of
  put_row-IsDistinct item cart none e h = IsDistinct-append _ cart.items e h
  put_row-IsDistinct item cart (some row) e h =
      IsDistinct-update (λ (r : CartRow). r.id == row.id) _ cart.items (λ x. refl) h

  upserted-IsDistinct :
      (menu_item_id : Uuid) (now : Time) (cart : Cart) (db : Db)
      → IsDistinct cart.items
      → Returns (λ next. IsDistinct next.items) (upserted id menu_item_id payload now cart db)
  unfolding upserted
  upserted-IsDistinct menu_item_id now cart db h =
      Returns-or_raise _ (restaurant_of cart db) restaurant_not_found _ (λ restaurant _.
        Returns-then _
          (validate_versions cart restaurant payload.expected_version
            payload.expected_menu_revision)
          _
          (Returns-or_raise _ (menu_item_by_id menu_item_id db) menu_item_not_found _ (λ item e.
            Returns-then _
              (raise_if (not (item.restaurant_id == cart.restaurant_id)) menu_item_not_found) _
              (Returns-then _ (raise_if (not item.is_available) (menu_item_unavailable item.id)) _ (
                Returns-then _
                  (raise_if (not (is_empty (unsupported_requests payload.request_codes)))
                    (unsupported_request_code (unsupported_requests payload.request_codes)))
                  _
                  (Returns-then _ (check_price item (row_of menu_item_id cart)) _ (
                    put_row-IsDistinct item cart (row_of menu_item_id cart) (rw (same item e) refl)
                      h)))))))
    where
      same :
          (item : MenuItem) → menu_item_by_id menu_item_id db ≡ some item → item.id ≡ menu_item_id
      same item e =
          unfold menu_item_by_id in
          (==_iff item.id menu_item_id).0
            (find-passes (λ (m : MenuItem). m.id == menu_item_id) db.menu_items e)

-- Each change keeps it so that no two rows of the cart are for one menu item.
pub changed-IsDistinct :
    (c : Change) (now : Time) (cart : Cart) (db : Db) {next : Cart}
    → IsDistinct cart.items
    → changed c now cart db ≡ ok next
    → IsDistinct next.items
changed-IsDistinct c now cart db h made =
    Returns-elim (λ (next : Cart). IsDistinct next.items) (changed c now cart db) (returns c) made
  where
    returns :
        (c : Change) → Returns (λ (next : Cart). IsDistinct next.items) (changed c now cart db)
    returns (upsert id menu_item_id payload) =
        unfold changed in upserted-IsDistinct id payload menu_item_id now cart db h
    returns (delete menu_item_id version revision) =
        unfold changed deleted in
        Returns-or_raise _ (restaurant_of cart db) restaurant_not_found _ (λ restaurant _.
          Returns-then _ (validate_versions cart restaurant version revision) _ (
            Returns-or_raise _ (row_of menu_item_id cart) cart_item_not_found _
              (λ row _. IsDistinct-delete _ cart.items h)))
    returns (settings serving_mode version revision) =
        unfold changed resettled in
        Returns-or_raise _ (restaurant_of cart db) restaurant_not_found _
          (λ restaurant _. Returns-then _ (validate_versions cart restaurant version revision) _ h)
