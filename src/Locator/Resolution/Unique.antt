-- ===== src/Locator/Resolution/Unique.antt =====
-- When a query has one match, and when a selection has left nothing out.
use agent_desktop.Prelude.{
  leb, Bool, List, [], ap, arith, false, length, ltb, none, ok, ok-injective, refl, some, suc, take,
  true, zero, ℕ, ◌↔◌, ◌∷◌, ◌≡◌,
}
use agent_desktop.Locator.Resolution.{
  LocatorResolution, LocatorSelection, all_matches, classify_query_result, count_only, first, last,
  last_match, nth, option_list, require_unique, selected_indices, strict, take_matches,
}

take_all : {A : Type 0} (n : ℕ) (xs : List A) → ltb n (length xs) ≡ false → take n xs ≡ xs
take_all zero [] h = refl
take_all zero (x ∷ xs) h = ground arith
take_all (suc n) [] h = refl
take_all (suc n) (x ∷ xs) h =
    let rest : ltb n (length xs) ≡ false = ground arith in ap (λ t. x ∷ t) (take_all n xs rest)

last_of_one :
    {A : Type 0} (xs : List A) → ltb 1 (length xs) ≡ false → option_list (last_match xs) ≡ xs
unfolding last_match
last_of_one [] h = refl
last_of_one (x ∷ []) h = refl
last_of_one (x ∷ y ∷ xs) h = ground arith

-- A selection that promises every match, or a whole end of them.
abbrev pub is_plain : LocatorSelection → Bool
is_plain count_only = false
is_plain (nth index) = false
is_plain _ = true

-- A selection, other than a count or the n-th match, that is not reported as truncated holds every
-- match in its order.
pub selected_indices_untruncated :
    {A : Type 0} (matches : List A) (selection : LocatorSelection)
    → is_plain selection ≡ true
    → (selected_indices matches selection).1 ≡ false
    → (selected_indices matches selection).0 ≡ matches
unfolding selected_indices take_matches
selected_indices_untruncated matches strict p h = take_all 10 matches h
selected_indices_untruncated matches (all_matches none) p h = refl
selected_indices_untruncated matches (all_matches (some zero)) p h = refl
selected_indices_untruncated matches (all_matches (some (suc n))) p h = take_all (suc n) matches h
selected_indices_untruncated matches count_only p h = cc
selected_indices_untruncated matches first p h = take_all 1 matches h
selected_indices_untruncated matches last p h = last_of_one matches h
selected_indices_untruncated matches (nth index) p h = cc

-- The resolution of a strict query with these matches.
abbrev pub strict_resolution : {A : Type 0} → List A → Bool → LocatorResolution A
strict_resolution matches complete = record {
  matches = (selected_indices matches strict).0;
  total_matches = length matches;
  complete = complete;
}

require_unique_sound :
    {A : Type 0} (matches : List A) (complete : Bool) (a : A)
    → require_unique (strict_resolution matches complete) ≡ ok a
    → (complete ≡ true) × (matches ≡ a ∷ [])
unfolding require_unique classify_query_result selected_indices take_matches
require_unique_sound [] true a h = cc
require_unique_sound [] false a h = cc
require_unique_sound (x ∷ []) true a h = (refl, ap (λ y. y ∷ []) (ok-injective h))
require_unique_sound (x ∷ []) false a h = cc
require_unique_sound (x ∷ y ∷ xs) complete a h =
    let big : leb 2 (suc (suc (length xs))) ≡ true = ground arith in
    cc (rw (big, require_unique, classify_query_result) at h)

require_unique_complete :
    {A : Type 0} (matches : List A) (complete : Bool) (a : A)
    → (complete ≡ true) × (matches ≡ a ∷ [])
    → require_unique (strict_resolution matches complete) ≡ ok a
unfolding require_unique classify_query_result selected_indices take_matches
require_unique_complete matches complete a (c, m) = rw (c, m) refl

-- A strict query yields a match exactly when the search was complete and it is the only one.
pub require_unique_iff :
    {A : Type 0} (matches : List A) (complete : Bool) (a : A)
    → (require_unique (strict_resolution matches complete) ≡ ok a)
      ↔ ((complete ≡ true) × (matches ≡ a ∷ []))
require_unique_iff matches complete a =
    (require_unique_sound matches complete a, require_unique_complete matches complete a)
