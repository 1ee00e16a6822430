-- ===== src/Identifiers.antt =====
-- crates/core/src/live_locator/identifier_evidence.rs: the identifiers that were read of an element.
use agent_desktop.Prelude.{
  Bool, List, Option, [], false, get_elem?, if◌then◌else◌, is_empty, is_some, is_some_and, length,
  map, map_option, none, some, true, unwrap_or, ℕ, ◌&&◌, ◌++◌, ◌+◌, ◌==◌, ◌∷◌,
}
use agent_desktop.Text.{Text, text_eq, trim}
use agent_desktop.RefEntry.{
  ElementIdentifier, IdentifierKind, atspi_object_path, automation_id, ax_dom_identifier,
  ax_identifier, runtime_id, unknown_kind,
}

pub record IdentifierEvidence : Type 0 where
  pub identifiers : List ElementIdentifier
  pub preferred : Option ℕ
  pub complete : Bool
  pub retained_object : Option Text

abbrev pub values : IdentifierEvidence → List Text
values e = map (λ i. i.value) e.identifiers

abbrev pub value_at : List Text → Option ℕ → Option Text
value_at texts none = none
value_at texts (some index) = get_elem? texts index

unfoldable pub preferred_value : IdentifierEvidence → Option Text
preferred_value e = value_at (values e) e.preferred

unfoldable pub kind_eq : IdentifierKind → IdentifierKind → Bool
kind_eq ax_identifier ax_identifier = true
kind_eq ax_dom_identifier ax_dom_identifier = true
kind_eq automation_id automation_id = true
kind_eq runtime_id runtime_id = true
kind_eq atspi_object_path atspi_object_path = true
kind_eq unknown_kind unknown_kind = true
kind_eq _ _ = false

unfoldable pub identifier_eq : ElementIdentifier → ElementIdentifier → Bool
unfolding kind_eq text_eq
identifier_eq a b = kind_eq a.kind b.kind && text_eq a.value b.value

-- `position(|candidate| candidate == &identifier)`.
unfoldable pub position : ElementIdentifier → List ElementIdentifier → Option ℕ
unfolding identifier_eq
position identifier [] = none
position identifier (candidate ∷ rest) =
    let later = map_option (λ n. n + 1) (position identifier rest) in
    if identifier_eq candidate identifier then some 0 else later

-- The loop of `typed`: the index of the next identifier, what was kept, and the preferred one of it.
unfoldable pub normalize_identifiers :
    Option ℕ
    → ℕ
    → List ElementIdentifier
    → List ElementIdentifier
    → Option ℕ
    → List ElementIdentifier × Option ℕ
unfolding position trim
normalize_identifiers preferred index [] kept chosen = (kept, chosen)
normalize_identifiers preferred index (identifier ∷ rest) kept chosen =
    let place = position identifier kept in
    let blank = is_empty (trim identifier.value) in
    let chosen' =
      if is_some_and preferred (λ p. p == index)
      then some (unwrap_or place (length kept))
      else chosen in
    let kept' = if is_some place then kept else kept ++ identifier ∷ [] in
    normalize_identifiers preferred (index + 1) rest (if blank then kept else kept')
      (if blank then chosen else chosen')

unfoldable pub typed : List ElementIdentifier → Option ℕ → Bool → IdentifierEvidence
unfolding normalize_identifiers
typed identifiers preferred complete =
    let (kept, chosen) = normalize_identifiers preferred 0 identifiers [] none in
    record { identifiers = kept; preferred = chosen; complete = complete; retained_object = none }

unfoldable pub untyped : List Text → Option ℕ → Bool → IdentifierEvidence
unfolding typed
untyped texts preferred complete =
    typed (map (λ t. record { kind = unknown_kind; value = t }) texts) preferred complete

abbrev pub with_retained_object : Text → IdentifierEvidence → IdentifierEvidence
with_retained_object token e = record e { retained_object = some token }

abbrev pub absent_identifiers : IdentifierEvidence
absent_identifiers = untyped [] none true

abbrev pub unknown_identifiers : IdentifierEvidence
unknown_identifiers = untyped [] none false
