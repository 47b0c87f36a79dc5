-- ===== src/Cart/Hazards.antt =====
-- The conflicts that `_compatibility` of app/services/cart.py finds.
use fofu_backend.Base.{
  select, String, ◌≡◌, refl, sym, ◌∙◌, Bool, true, false, not, ◌&&◌, ◌||◌, some, List, [], ◌∷◌, map,
  str_eq, eq_iff, any, is_empty, arith, if-split,
}
use fofu_backend.Cart.Rows.{MenuItem, AllergenLink, FoodPassport}
use fofu_backend.Cart.Change.{has_code, insert_code, sorted_set, text_leb}
use fofu_backend.Cart.Compatibility.{
  CompatibilityAssessment, CompatibilityStatus, conflict, Findings, no_findings, ◌then_also◌,
  found_conflict, found_unknown, for_each, meets, ingredient_aliases, covering_diets,
  expanded_claims, ingredient_codes, links_of, is_positive, normalize_code, check_ingredient,
  check_links, check_allergen, check_diet, check_item, avoids_nothing, assessment_of, compatibility,
}

any-cong {ℓ} :
    {A : Type ℓ} (p q : A → Bool) (xs : List A) → ((x : A) → p x ≡ q x) → any p xs ≡ any q xs
unfolding any
any-cong p q [] h = refl
any-cong p q (x ∷ xs) h = rw (h x, any-cong p q xs h) refl

any-never {ℓ} : {A : Type ℓ} (xs : List A) → any (λ _. false) xs ≡ false
unfolding any
any-never [] = refl
any-never (x ∷ xs) = any-never xs

any-insert_code :
    (p : String → Bool) (c : String) (cs : List String)
    → any p (insert_code c cs) ≡ (p c || any p cs)
unfolding any insert_code
any-insert_code p c [] = refl
any-insert_code p c (b ∷ bs) =
    if-split (λ out. any p out ≡ (p c || (p b || any p bs))) (str_eq c b)
      (λ same. rw ((eq_iff c b).0 same) (ground arith))
      (λ _.
        if-split (λ out. any p out ≡ (p c || (p b || any p bs))) (text_leb c b) (λ _. refl)
          (λ _. rw (any-insert_code p c bs) (ground arith)))

-- Sorting a set of codes changes nothing for a search.
any-sorted_set : (p : String → Bool) (cs : List String) → any p (sorted_set cs) ≡ any p cs
unfolding any sorted_set
any-sorted_set p [] = refl
any-sorted_set p (c ∷ cs) = any-insert_code p c (sorted_set cs) ∙ rw (any-sorted_set p cs) refl

for_each-conflict {ℓ} :
    {A : Type ℓ} (f : A → Findings) (xs : List A)
    → (for_each f xs).has_conflict ≡ any (λ a. (f a).has_conflict) xs
unfolding for_each any ◌then_also◌ no_findings
for_each-conflict f [] = refl
for_each-conflict f (x ∷ xs) = rw (for_each-conflict f xs) refl

or-cong : {a b c d : Bool} → a ≡ c → b ≡ d → (a || b) ≡ (c || d)
or-cong h k = rw (h, k) refl

loop-conflict :
    (f : String → Findings) (p : String → Bool) (codes : List String)
    → ((c : String) → (f c).has_conflict ≡ p c)
    → (for_each f (sorted_set codes)).has_conflict ≡ any p codes
loop-conflict f p codes h =
    for_each-conflict f (sorted_set codes)
    ∙ any-sorted_set (λ c. (f c).has_conflict) codes
    ∙ any-cong _ p codes h

any-empty :
    (p : String → Bool) (f : String → String) (cs : List String)
    → is_empty cs ≡ true
    → any p (map f cs) ≡ false
unfolding any
any-empty p f [] h = refl
any-empty p f (c ∷ cs) h = ground arith

abbrev pub is_conflict : CompatibilityStatus → Bool
is_conflict conflict = true
is_conflict _ = false

assessment_of-conflict : (f : Findings) → is_conflict (assessment_of f).status ≡ f.has_conflict
unfolding assessment_of
assessment_of-conflict f =
    if-split (λ (s : CompatibilityStatus). is_conflict s ≡ f.has_conflict) f.has_conflict
      (λ e. sym e)
      (λ e.
        if-split (λ (s : CompatibilityStatus). is_conflict s ≡ f.has_conflict) f.has_unknown
          (λ _. sym e) (λ _. sym e))

module _ (strip casefold : String → String) where
  -- The item has an ingredient that an avoided code stands for.
  abbrev pub has_ingredient : MenuItem → String → Bool
  has_ingredient item code = meets (ingredient_aliases code) (ingredient_codes strip casefold item)

  -- The item is known to contain an avoided allergen, or that it may.
  abbrev pub has_allergen : MenuItem → String → Bool
  has_allergen item code =
      any (λ (l : AllergenLink). is_positive (casefold l.relation_type))
        (links_of strip casefold item code)

  -- What the passport's owner avoids is, or may be, in the item.
  unfoldable pub is_hazard : FoodPassport → MenuItem → Bool
  is_hazard passport item =
      any (has_ingredient item)
        (map (normalize_code strip casefold) passport.avoid_ingredient_codes)
      || any (has_allergen item) (map (normalize_code strip casefold) passport.avoid_allergen_codes)

  check_ingredient-conflict :
      (item : MenuItem) (code : String)
      → (check_ingredient strip casefold item code).has_conflict ≡ has_ingredient item code
  unfolding check_ingredient found_conflict found_unknown no_findings
  check_ingredient-conflict item code =
      if-split (λ (f : Findings). f.has_conflict ≡ has_ingredient item code)
        (has_ingredient item code) (λ e. sym e)
        (λ e.
          if-split (λ (f : Findings). f.has_conflict ≡ has_ingredient item code)
            (meets (covering_diets code) (expanded_claims strip casefold item)) (λ _. sym e)
            (λ _. sym e))

  check_links-conflict :
      (item : MenuItem) (code : String) (links : List AllergenLink) (positive negative : Bool)
      → (check_links strip casefold item code positive negative links).has_conflict
        ≡ any (λ (l : AllergenLink). is_positive (casefold l.relation_type)) links
  unfolding check_links found_conflict found_unknown no_findings ◌then_also◌ any
  check_links-conflict item code [] positive negative =
      if-split (λ (f : Findings). f.has_conflict ≡ false) (not positive && not negative) (λ _. refl)
        (λ _. refl)
  check_links-conflict item code (l ∷ links) positive negative =
      or-cong
        (if-split (λ (f : Findings). f.has_conflict ≡ is_positive (casefold l.relation_type))
          (is_positive (casefold l.relation_type)) (λ e. sym e) (λ e. sym e))
        (check_links-conflict item code links _ _)

  check_allergen-conflict :
      (item : MenuItem) (code : String)
      → (check_allergen strip casefold item code).has_conflict ≡ has_allergen item code
  unfolding check_allergen found_unknown
  check_allergen-conflict item code =
      if-split (λ (f : Findings). f.has_conflict ≡ has_allergen item code)
        (is_empty (links_of strip casefold item code))
        (λ e. sym (none_found (links_of strip casefold item code) e))
        (λ _. check_links-conflict item code (links_of strip casefold item code) false false)
    where
      none_found :
          (links : List AllergenLink)
          → is_empty links ≡ true
          → any (λ (l : AllergenLink). is_positive (casefold l.relation_type)) links ≡ false
      none_found [] e = unfold any in refl
      none_found (l ∷ links) e = ground arith

  check_item-conflict :
      (passport : FoodPassport) (item : MenuItem)
      → (check_item strip casefold passport item).has_conflict ≡ is_hazard passport item
  unfolding check_item ◌then_also◌ is_hazard
  check_item-conflict passport item =
      let ingredients =
        loop-conflict (check_ingredient strip casefold item) (has_ingredient item)
          (map (normalize_code strip casefold) passport.avoid_ingredient_codes)
          (check_ingredient-conflict item) in
      let allergens =
        loop-conflict (check_allergen strip casefold item) (has_allergen item)
          (map (normalize_code strip casefold) passport.avoid_allergen_codes)
          (check_allergen-conflict item) in
      let diets =
        loop-conflict (check_diet strip casefold item) (λ _. false)
          (select (λ c. not (has_code (expanded_claims strip casefold item) c))
            (map (normalize_code strip casefold) passport.diet_codes))
          (λ c. unfold check_diet found_unknown in refl)
        ∙ any-never _ in
      or-cong ingredients (rw (allergens, diets) (ground arith))

  no_hazards :
      (passport : FoodPassport) (items : List MenuItem)
      → avoids_nothing passport ≡ true
      → any (is_hazard passport) items ≡ false
  unfolding is_hazard
  no_hazards passport items h =
      any-cong (is_hazard passport) (λ _. false) items
        (λ item.
          or-cong (any-empty (has_ingredient item) _ passport.avoid_ingredient_codes (ground arith))
            (any-empty (has_allergen item) _ passport.avoid_allergen_codes (ground arith)))
      ∙ any-never items

-- For a guest with a food passport, the assessment is a conflict exactly where some menu item has an
-- ingredient that an avoided code stands for, or a link, for an avoided allergen, that says the item
-- contains it, may contain it or was in contact with it.
pub compatibility-conflict :
    (strip casefold : String → String) (passport : FoodPassport) (menu_items : List MenuItem)
    → is_conflict (compatibility strip casefold (some passport) menu_items).status
      ≡ any (is_hazard strip casefold passport) menu_items
unfolding compatibility
compatibility-conflict strip casefold passport menu_items =
    if-split
      (λ (a : CompatibilityAssessment).
        is_conflict a.status ≡ any (is_hazard strip casefold passport) menu_items)
      (avoids_nothing passport) (λ e. sym (no_hazards strip casefold passport menu_items e))
      (λ _.
        assessment_of-conflict (for_each (check_item strip casefold passport) menu_items)
        ∙ for_each-conflict (check_item strip casefold passport) menu_items
        ∙ any-cong _ (is_hazard strip casefold passport) menu_items
            (check_item-conflict strip casefold passport))
