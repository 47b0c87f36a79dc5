-- ===== src/Cart/Rows.antt =====
-- The tables that app/services/cart.py reads and writes (app/models.py), and its errors.
-- A uuid is a number, a time is in microseconds, and a status is a data type. Amounts and counts
-- are not negative: the tables' checks and the schemas' bounds say so.
use fofu_backend.Base.{ℕ, Uuid, Time, String, Bool, true, false, Option, List}

pub data CartStatus : Type 0 where
  active abandoned : CartStatus

abbrev pub is_active : CartStatus → Bool
is_active active = true
is_active abandoned = false

pub data ServingMode : Type 0 where
  dine_in takeout : ServingMode

pub record Translation : Type 0 where
  pub locale : String
  pub name : String

pub record AllergenLink : Type 0 where
  pub allergen_code : String
  pub relation_type : String
  pub verification_status : String

pub record DietaryClaim : Type 0 where
  pub code : String
  pub verification_status : String

pub record MenuItem : Type 0 where
  pub id : Uuid
  pub restaurant_id : Uuid
  pub name_en : String
  pub name_ko : Option String
  pub price_amount : Option ℕ
  pub is_available : Bool
  pub translations : List Translation
  -- the ingredients' codes
  pub ingredient_links : List String
  pub allergen_links : List AllergenLink
  pub dietary_claims : List DietaryClaim

pub record Restaurant : Type 0 where
  pub id : Uuid
  pub owner_user_id : Option Uuid
  pub is_published : Bool
  pub name_en : String
  pub name_ko : Option String
  pub currency : String
  pub menu_revision : ℕ

-- A row of `cart_items`, under its cart.
pub record CartRow : Type 0 where
  pub id : Uuid
  pub menu_item_id : Uuid
  pub quantity : ℕ
  pub unit_price_snapshot : Option ℕ
  pub notes : Option String
  pub request_codes : List String

pub record Cart : Type 0 where
  pub id : Uuid
  pub user_id : Uuid
  pub restaurant_id : Uuid
  pub status : CartStatus
  pub serving_mode : ServingMode
  pub table_label : Option String
  pub menu_revision : ℕ
  pub version : ℕ
  pub updated_at : Time
  pub items : List CartRow

pub record FoodPassport : Type 0 where
  pub user_id : Uuid
  pub diet_codes : List String
  pub avoid_allergen_codes : List String
  pub avoid_ingredient_codes : List String

-- The reason of an entry of `cart_requires_review`.
pub data Review : Type 0 where
  removed : Uuid → Review
  unavailable : Uuid → Review
  price_changed : Uuid → Option ℕ → Option ℕ → Review

-- `CartServiceError` with its code and details.
pub data CartServiceError : Type 0 where
  cart_not_found restaurant_not_found menu_item_not_found cart_item_not_found : CartServiceError
  cart_version_conflict : ℕ → ℕ → CartServiceError
  menu_revision_conflict : ℕ → ℕ → ℕ → CartServiceError
  menu_item_unavailable : Uuid → CartServiceError
  unsupported_request_code : List String → CartServiceError
  menu_item_price_changed : Uuid → Option ℕ → Option ℕ → CartServiceError
  empty_cart idempotency_key_conflict : CartServiceError
  cart_requires_review : List Review → CartServiceError
  -- an `IntegrityError` that is raised again
  integrity_error : CartServiceError
