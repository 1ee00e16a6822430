-- ===== src/Locator/Resolution.antt =====
-- crates/core/src/live_locator: select.rs, cardinality.rs, locator_selection.rs,
-- locator_cardinality.rs and observation_budget.rs: which matches are kept, and what the number of
-- matches says. A match is of any type `A`.
pub mod Unique
use agent_desktop.Prelude.{
  Bool, List, Option, Result, [], err, false, get_elem?, head?, if◌then◌else◌, leb, length, ltb,
  none, not, ok_or, some, suc, take, zero, ℕ, ◌==◌, ◌∷◌,
}
use agent_desktop.Error.{
  AdapterError, AppError, DeliverySemantics, adapter, ambiguous_target, element_not_found, internal,
  new, not_delivered, timeout, with_disposition, with_suggestion,
}

pub data LocatorSelection : Type 0 where
  strict : LocatorSelection
  all_matches : Option ℕ → LocatorSelection
  count_only first last : LocatorSelection
  nth : ℕ → LocatorSelection

pub data LocatorCardinality : Type 0 where
  none_found one_found : LocatorCardinality
  many_found : ℕ → Bool → LocatorCardinality
  incomplete : ℕ → LocatorCardinality

module _ {A : Type 0} where
  abbrev pub option_list : Option A → List A
  option_list none = []
  option_list (some a) = a ∷ []

  -- `slice::last`.
  unfoldable pub last_match : List A → Option A
  last_match [] = none
  last_match (a ∷ []) = some a
  last_match (a ∷ b ∷ rest) = last_match (b ∷ rest)

  -- `take` of select.rs.
  unfoldable pub take_matches : List A → ℕ → List A × Bool
  take_matches matches limit = (take limit matches, ltb limit (length matches))

  unfoldable pub selected_indices : List A → LocatorSelection → List A × Bool
  unfolding take_matches
  selected_indices matches strict = take_matches matches 10
  selected_indices matches (all_matches none) = (matches, false)
  selected_indices matches (all_matches (some zero)) = (matches, false)
  selected_indices matches (all_matches (some (suc n))) = take_matches matches (suc n)
  selected_indices matches count_only = ([], false)
  selected_indices matches first = take_matches matches 1
  selected_indices matches last = (option_list (last_match matches), ltb 1 (length matches))
  selected_indices matches (nth index) =
      (option_list (get_elem? matches index), ltb 1 (length matches))

-- `AdapterError::ambiguous_target` and `timeout`, as `require_unique` calls them.
abbrev pub ambiguous_query : AdapterError
ambiguous_query = with_disposition DeliverySemantics.not_delivered (
    with_suggestion "Re-run a snapshot to refresh refs, then retry with a more specific ref"
      (new ambiguous_target "Locator query matched at least {observed} elements"))

abbrev pub unproved_query : AdapterError
unproved_query =
    with_suggestion "The target application may be busy or unresponsive"
      (new timeout "Locator traversal could not prove a unique result")

-- The fields of `LocatorResolution` that the cardinality reads.
pub record LocatorResolution (A : Type 0) : Type 0 where
  pub matches : List A
  pub total_matches : ℕ
  pub complete : Bool

module _ {A : Type 0} where
  unfoldable pub classify_query_result : LocatorResolution A → LocatorCardinality
  classify_query_result r =
      if leb 2 r.total_matches
      then many_found r.total_matches r.complete
      else if not r.complete
      then incomplete r.total_matches
      else if r.total_matches == 0
      then none_found
      else one_found

  unfoldable pub require_unique : LocatorResolution A → Result AppError A
  require_unique r = elim (classify_query_result r) [
    | none_found ↦ err (
        adapter (
          with_suggestion "Use a broader locator or inspect roles_present"
            (new element_not_found "Locator query matched no elements")))
    | one_found ↦
        ok_or (head? r.matches)
          (adapter (new internal "unique locator resolution did not retain its match"))
    | many_found observed exact ↦ err (adapter ambiguous_query)
    | incomplete observed ↦ err (adapter unproved_query)
  ]
