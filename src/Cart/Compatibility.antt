-- ===== src/Cart/Compatibility.antt =====
-- app/services/cart.py: `_compatibility`. The language's `strip` and `casefold`, which follow the
-- Unicode tables, are parameters.
use fofu_backend.Base.{
  Uuid, String, Bool, true, false, not, ◌&&◌, ◌||◌, Option, none, some, List, [], ◌∷◌, ◌++◌, map,
  str_eq, any, select, is_empty, if◌then◌else◌,
}
use fofu_backend.Utils.Text.{replace, ◌<>◌}
use fofu_backend.Cart.Rows.{MenuItem, AllergenLink, DietaryClaim, FoodPassport}
use fofu_backend.Cart.Change.{has_code, sorted_set}

pub data ReasonKind : Type 0 where
  allergen ingredient diet data_quality : ReasonKind

pub record CompatibilityReason : Type 0 where
  pub code : String
  pub kind : ReasonKind
  pub message : String
  pub menu_item_id : Uuid
  pub relationship : Option String

pub data CompatibilityStatus : Type 0 where
  compatible conflict unknown : CompatibilityStatus

pub record CompatibilityAssessment : Type 0 where
  pub status : CompatibilityStatus
  pub reasons : List CompatibilityReason

-- The variables `reasons`, `has_conflict` and `has_unknown`, as a part of the loops adds to them.
pub record Findings : Type 0 where
  pub reasons : List CompatibilityReason
  pub has_conflict : Bool
  pub has_unknown : Bool

unfoldable pub no_findings : Findings
no_findings = record { reasons = []; has_conflict = false; has_unknown = false }

infixr 5 ◌then_also◌
unfoldable pub ◌then_also◌ : Findings → Findings → Findings
a then_also b = record {
  reasons = a.reasons ++ b.reasons;
  has_conflict = a.has_conflict || b.has_conflict;
  has_unknown = a.has_unknown || b.has_unknown;
}

unfoldable pub found_conflict : CompatibilityReason → Findings
found_conflict reason = record { reasons = reason ∷ []; has_conflict = true; has_unknown = false }

unfoldable pub found_unknown : CompatibilityReason → Findings
found_unknown reason = record { reasons = reason ∷ []; has_conflict = false; has_unknown = true }

-- A loop, given what a round adds.
unfoldable pub for_each {ℓ} : {A : Type ℓ} → (A → Findings) → List A → Findings
unfolding no_findings ◌then_also◌
for_each f [] = no_findings
for_each f (a ∷ rest) = f a then_also for_each f rest

abbrev pub is_unverified : String → Bool
is_unverified status = str_eq status "unknown" || str_eq status "unverified"

-- The codes that a dietary claim stands for.
unfoldable pub claims_implied : String → List String
claims_implied code =
    if str_eq code "vegan"
    then "vegan" ∷ "vegetarian" ∷ "pescatarian" ∷ []
    else if str_eq code "vegetarian"
    then "vegetarian" ∷ "pescatarian" ∷ []
    else if str_eq code "pescatarian"
    then "pescatarian" ∷ []
    else code ∷ []

unfoldable pub ingredient_aliases : String → List String
ingredient_aliases code =
    if str_eq code "pork"
    then "pork" ∷ "pork-belly" ∷ []
    else if str_eq code "dairy"
    then "dairy" ∷ "milk" ∷ "cheese" ∷ []
    else code ∷ []

-- The diets that leave an ingredient out.
unfoldable pub covering_diets : String → List String
covering_diets code =
    if str_eq code "pork" || str_eq code "pork-belly"
    then "vegan" ∷ "vegetarian" ∷ "pescatarian" ∷ "halal" ∷ []
    else if str_eq code "beef" || str_eq code "chicken"
    then "vegan" ∷ "vegetarian" ∷ "pescatarian" ∷ []
    else if str_eq code "fish" || str_eq code "shellfish"
    then "vegan" ∷ "vegetarian" ∷ []
    else []

abbrev pub meets : List String → List String → Bool
meets codes others = any (has_code others) codes

abbrev pub is_positive : String → Bool
is_positive relationship = has_code ("contains" ∷ "may_contain" ∷ "cross_contact" ∷ []) relationship

abbrev pub is_negative : String → Bool
is_negative relationship = has_code ("free_from" ∷ "does_not_contain" ∷ []) relationship

unverified_allergen : String → MenuItem → CompatibilityReason
unverified_allergen code item = record {
  code = code;
  kind = data_quality;
  message = "Allergen exclusion for " <> item.name_en <> " is not verified.";
  menu_item_id = item.id;
  relationship = none;
}

abbrev pub avoids_nothing : FoodPassport → Bool
avoids_nothing passport =
    is_empty passport.avoid_allergen_codes
    && (is_empty passport.avoid_ingredient_codes && is_empty passport.diet_codes)

unfoldable pub assessment_of : Findings → CompatibilityAssessment
assessment_of f = record {
  status = if f.has_conflict then conflict else if f.has_unknown then unknown else compatible;
  reasons = f.reasons;
}

module _ (strip casefold : String → String) where
  unfoldable pub normalize_code : String → String
  normalize_code value = replace b' ' "-" (replace b'_' "-" (casefold (strip value)))

  unfoldable pub claimed : List DietaryClaim → List String
  unfolding normalize_code
  claimed [] = []
  claimed (c ∷ cs) =
      let rest = claimed cs in
      if is_unverified c.verification_status
      then rest
      else claims_implied (normalize_code c.code) ++ rest

  -- `expanded_claims`
  abbrev pub expanded_claims : MenuItem → List String
  expanded_claims item = claimed item.dietary_claims

  abbrev pub ingredient_codes : MenuItem → List String
  ingredient_codes item = map normalize_code item.ingredient_links

  -- The loop's body for a code of `ingredients`.
  unfoldable pub check_ingredient : MenuItem → String → Findings
  unfolding no_findings found_conflict found_unknown
  check_ingredient item code =
      if meets (ingredient_aliases code) (ingredient_codes item)
      then found_conflict (record {
        code = code;
        kind = ingredient;
        message = item.name_en <> " contains an ingredient you avoid: " <> code <> ".";
        menu_item_id = item.id;
        relationship = some "contains";
      })
      else if meets (covering_diets code) (expanded_claims item)
      then no_findings
      else found_unknown (record {
        code = code;
        kind = data_quality;
        message = "Complete ingredient exclusion for " <> item.name_en <> " is not verified.";
        menu_item_id = item.id;
        relationship = none;
      })

  -- The loop over the links of a code, with `positive_found` and `negative_verified`, and the test
  -- that follows it.
  unfoldable pub check_links : MenuItem → String → Bool → Bool → List AllergenLink → Findings
  unfolding no_findings ◌then_also◌ found_conflict found_unknown unverified_allergen
  check_links item code positive_found negative_verified [] =
      if not positive_found && not negative_verified
      then found_unknown (unverified_allergen code item)
      else no_findings
  check_links item code positive_found negative_verified (l ∷ links) =
      let relationship = casefold l.relation_type in
      (if is_positive relationship
        then found_conflict (record {
          code = code;
          kind = allergen;
          message = item.name_en <> ": " <> replace b'_' " " relationship <> " " <> code <> ".";
          menu_item_id = item.id;
          relationship = some relationship;
        })
        else no_findings)
      then_also check_links item code (positive_found || is_positive relationship)
          (if is_positive relationship
            then negative_verified
            else if is_negative relationship
            then not (is_unverified l.verification_status)
            else negative_verified)
          links

  -- `links_by_code.get(code, [])`
  abbrev pub links_of : MenuItem → String → List AllergenLink
  links_of item code =
      select (λ (l : AllergenLink). str_eq (normalize_code l.allergen_code) code)
        item.allergen_links

  -- The loop's body for a code of `allergens`.
  unfoldable pub check_allergen : MenuItem → String → Findings
  unfolding check_links found_unknown unverified_allergen
  check_allergen item code =
      if is_empty (links_of item code)
      then found_unknown (unverified_allergen code item)
      else check_links item code false false (links_of item code)

  -- The loop's body for a code of `diets`.
  unfoldable pub check_diet : MenuItem → String → Findings
  unfolding found_unknown
  check_diet item code = found_unknown (record {
    code = code;
    kind = diet;
    message = item.name_en <> " has no verified " <> code <> " claim.";
    menu_item_id = item.id;
    relationship = none;
  })

  -- The body of the loop over the menu items.
  unfoldable pub check_item : FoodPassport → MenuItem → Findings
  unfolding ◌then_also◌ for_each check_ingredient check_allergen check_diet sorted_set
  check_item passport item =
      for_each (check_ingredient item)
        (sorted_set (map normalize_code passport.avoid_ingredient_codes))
      then_also for_each (check_allergen item)
          (sorted_set (map normalize_code passport.avoid_allergen_codes))
      then_also for_each (check_diet item) (
          sorted_set (
            select (λ c. not (has_code (expanded_claims item) c))
              (map normalize_code passport.diet_codes)))

  -- `_compatibility`; the disclaimer is one constant text
  unfoldable pub compatibility : Option FoodPassport → List MenuItem → CompatibilityAssessment
  unfolding for_each check_item assessment_of
  compatibility none menu_items = record { status = unknown; reasons = [] }
  compatibility (some passport) menu_items =
      if avoids_nothing passport
      then record { status = compatible; reasons = [] }
      else assessment_of (for_each (check_item passport) menu_items)
