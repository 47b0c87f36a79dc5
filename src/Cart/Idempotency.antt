-- ===== src/Cart/Idempotency.antt =====
-- The idempotency keys of `prepare_order_card` in app/services/cart.py.
use fofu_backend.Base.{
  Result, ok, err, Returns, Returns-after, ℕ, Uuid, String, ◌≡◌, refl, ap, sym, ◌∙◌, true, false,
  Option, none, some, List, ◌++◌, ==_refl, str_eq, eq_iff, any, if-split, if◌then◌else◌, find,
  find-append, find-appended, find-any, subst,
}
use fofu_backend.Cart.Rows.{CartServiceError, Cart, idempotency_key_conflict}
use fofu_backend.Cart.Service.{Db}
use fofu_backend.Cart.Change.{restaurant_of}
use fofu_backend.Cart.OrderCard.{OrderCard, OrderCardItem, build_order_card}
use fofu_backend.Utils.Locale.{normalize_locale}
use fofu_backend.Cart.Prepare.{
  Order, Orders, Commit, commits, breaks_constraint, PrepareRequest, is_order_for, idempotent_order,
  replay_order_card, replay_or_raise, saved, insert_order, commit_order, commit_new, new_order,
  preview_currency, currency_or, new_order_of, fingerprint_of, replay_or_create, prepare_order_card,
}

is_order_for_refl : (o : Order) → is_order_for o.user_id o.idempotency_key o ≡ true
is_order_for_refl o =
    rw (==_refl o.user_id, (eq_iff o.idempotency_key o.idempotency_key).1 refl) refl

-- The key is kept under the fingerprint, with the card.
abbrev IsKept : Uuid → String → String → Orders → OrderCard → Type 0
IsKept user_id key fingerprint db card =
    (order : Order) × (idempotent_order user_id key db ≡ some order)
    × (order.request_fingerprint ≡ fingerprint)
    × (order.response_snapshot ≡ card)

-- What a call that returns a card has left in the tables.
abbrev IsKeptBy : Uuid → String → String → Orders × Result CartServiceError OrderCard → Type 0
IsKeptBy user_id key fingerprint (db, ok card) = IsKept user_id key fingerprint db card
IsKeptBy user_id key fingerprint (db, err e) = Unit

replay-IsKept :
    (user_id : Uuid) (key fingerprint : String) (order : Order) (db : Orders)
    → idempotent_order user_id key db ≡ some order
    → IsKeptBy user_id key fingerprint (db, replay_order_card order fingerprint)
unfolding replay_order_card
replay-IsKept user_id key fingerprint order db e =
    if-split (λ (r : Result CartServiceError OrderCard). IsKeptBy user_id key fingerprint (db, r))
      (str_eq order.request_fingerprint fingerprint)
      (λ same. (order, e, (eq_iff order.request_fingerprint fingerprint).0 same, refl)) (λ _. tt)

raced-IsKept :
    (user_id : Uuid) (key fingerprint : String) (o : Option Order) (db : Orders)
    → idempotent_order user_id key db ≡ o
    → IsKeptBy user_id key fingerprint (db, replay_or_raise o fingerprint)
raced-IsKept user_id key fingerprint none db e = tt
raced-IsKept user_id key fingerprint (some order) db e =
    replay-IsKept user_id key fingerprint order db e

saved-IsKept :
    (outcome : Commit) (order : Order) (rows : List OrderCardItem) (db : Orders)
    → any (is_order_for order.user_id order.idempotency_key) db.orders ≡ false
    → IsKeptBy order.user_id order.idempotency_key order.request_fingerprint
        (saved outcome order rows db)
unfolding saved insert_order idempotent_order
saved-IsKept commits order rows db fresh = (
  order,
  find-appended _ db.orders order (find-any _ db.orders fresh) (is_order_for_refl order),
  refl,
  refl,
)
saved-IsKept breaks_constraint order rows db fresh = tt

commit_order-IsKept :
    (outcome : Commit) (order : Order) (rows : List OrderCardItem) (db : Orders)
    → IsKeptBy order.user_id order.idempotency_key order.request_fingerprint
        (commit_order outcome order rows db)
unfolding commit_order
commit_order-IsKept outcome order rows db =
    if-split (IsKeptBy order.user_id order.idempotency_key order.request_fingerprint)
      (any (is_order_for order.user_id order.idempotency_key) db.orders)
      (λ _.
        raced-IsKept order.user_id order.idempotency_key order.request_fingerprint
          (idempotent_order order.user_id order.idempotency_key db) db refl)
      (λ fresh. saved-IsKept outcome order rows db fresh)

module _ (strip casefold : String → String)
    (digest : Uuid → Option ℕ → Option ℕ → String → String) where
  commit_new-IsKept :
      (user_id : Uuid) (key fingerprint : String) (outcome : Commit)
      (r : Result CartServiceError (Order × List OrderCardItem)) (db : Orders)
      → Returns
          (λ (p : Order × List OrderCardItem).
            (p.0.user_id ≡ user_id)
            × (p.0.idempotency_key ≡ key)
            × (p.0.request_fingerprint ≡ fingerprint))
          r
      → IsKeptBy user_id key fingerprint (commit_new outcome r db)
  unfolding commit_new
  commit_new-IsKept user_id key fingerprint outcome (err e) db h = tt
  commit_new-IsKept user_id key fingerprint outcome (ok (order, rows)) db (u, k, f) =
      let kept = commit_order-IsKept outcome order rows db in rw (sym u, sym k, sym f) kept

  -- The order has the key and the fingerprint of the request.
  abbrev IsKeyed : PrepareRequest → Cart → Order × List OrderCardItem → Type 0
  IsKeyed request cart (order, rows) =
      (order.user_id ≡ cart.user_id)
      × (order.idempotency_key ≡ request.idempotency_key)
      × (order.request_fingerprint ≡ fingerprint_of strip casefold digest request cart)

  new_order_of-key :
      (request : PrepareRequest) (db : Db) (cart : Cart)
      → Returns (IsKeyed request cart) (new_order_of strip casefold digest request db cart)
  unfolding new_order_of
  new_order_of-key request db cart =
      Returns-after (IsKeyed request cart)
        (build_order_card strip casefold (some (normalize_locale request.locale))
          request.expected_version request.expected_menu_revision none request.now db cart)
        _
        (λ card.
          Returns-after (IsKeyed request cart)
            (currency_or (preview_currency card) (restaurant_of cart db))
            (λ currency. ok (
              new_order request.order_id request.idempotency_key
                  (fingerprint_of strip casefold digest request cart) currency cart card,
              card.items,
            ))
            (λ currency. (refl, refl, refl)))

  replay_or_create-IsKept :
      (request : PrepareRequest) (outcome : Commit) (db : Db) (cart : Cart) (committed : Orders)
      (o : Option Order)
      → ((order : Order)
          → o ≡ some order
          → idempotent_order cart.user_id request.idempotency_key committed ≡ some order)
      → IsKeptBy cart.user_id request.idempotency_key
          (fingerprint_of strip casefold digest request cart)
          (replay_or_create strip casefold digest request outcome db cart committed o)
  unfolding replay_or_create
  replay_or_create-IsKept request outcome db cart committed none h =
      commit_new-IsKept cart.user_id request.idempotency_key _ outcome _ committed
        (new_order_of-key request db cart)
  replay_or_create-IsKept request outcome db cart committed (some order) h =
      replay-IsKept cart.user_id request.idempotency_key _ order committed (h order refl)

-- An order card has been returned for a key, where other requests may have added orders between the
-- first query and the commit. A later request of the user with that key, whatever has become of the
-- cart and the menu, changes no table; it returns the same card where its fingerprint is the same,
-- and is refused with `idempotency_key_conflict` where it is another.
pub prepare_order_card-again :
    (strip casefold : String → String) (digest : Uuid → Option ℕ → Option ℕ → String → String)
    (request again : PrepareRequest) (outcome outcome' : Commit) (db later : Db) (cart cart' : Cart)
    (seen committed tables : Orders) (others : List Order) (card : OrderCard)
    → committed.orders ≡ seen.orders ++ others
    → prepare_order_card strip casefold digest request outcome db cart seen committed
      ≡ (tables, ok card)
    → again.idempotency_key ≡ request.idempotency_key
    → cart'.user_id ≡ cart.user_id
    → prepare_order_card strip casefold digest again outcome' later cart' tables tables ≡ (
      tables,
      if str_eq
            (fingerprint_of strip casefold digest request cart)
            (fingerprint_of strip casefold digest again cart')
          then ok card
          else err idempotency_key_conflict,
    )
unfolding prepare_order_card idempotent_order
prepare_order_card-again strip casefold digest request again outcome outcome' db later cart cart'
      seen committed tables others card grown h key user =
    let kept =
      replay_or_create-IsKept strip casefold digest request outcome db cart committed
        (idempotent_order cart.user_id request.idempotency_key seen)
        (λ order e.
          ap (find (is_order_for cart.user_id request.idempotency_key)) grown
          ∙ find-append (is_order_for cart.user_id request.idempotency_key) seen.orders others e) in
    let (order, found, fingerprint, snapshot) : IsKept cart.user_id request.idempotency_key
        (fingerprint_of strip casefold digest request cart) tables card =
      subst
        (IsKeptBy cart.user_id request.idempotency_key
          (fingerprint_of strip casefold digest request cart))
        h kept in
    rw (key, user, found) (unfold replay_order_card in rw (fingerprint, snapshot) refl)
