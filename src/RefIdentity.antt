-- ===== src/RefIdentity.antt =====
-- crates/core/src/ref_identity.rs and ref_identity_match.rs: whether a live element is the one that
-- a ref entry describes. `parse_f64` is `str::parse::<f64>`.
pub mod Completion
use agent_desktop.Prelude.{
  Bool, List, Option, any, false, if◌then◌else◌, is_empty, is_some, is_some_and, none, not, some,
  true, ◌&&◌, ◌||◌,
}
use agent_desktop.Text.{Text, text_eq, trim}
use agent_desktop.Geometry.{F64, is_finite, le_f64}
use agent_desktop.Roles.{is_mutable_value_role}
use agent_desktop.RefEntry.{ElementIdentifier, RefEntry}
use agent_desktop.Identifiers.{IdentifierEvidence, identifier_eq, kind_eq}
use agent_desktop.Locator.{LocatorField, absent, known, unread}

pub data IdentityMatch : Type 0 where
  same_identity other_identity unknown_identity : IdentityMatch

unfoldable pub meaningful_text : Option Text → Option Text
unfolding trim
meaningful_text none = none
meaningful_text (some text) = if is_empty (trim text) then none else some text

unfoldable pub meaningful_field : LocatorField Text → LocatorField Text
unfolding trim
meaningful_field (known value) = if is_empty (trim value) then absent else known value
meaningful_field absent = absent
meaningful_field unread = unread

unfoldable pub equality_match : Text → Text → IdentityMatch
unfolding text_eq
equality_match expected actual = if text_eq actual expected then same_identity else other_identity

unfoldable pub match_primary_identity : Text → LocatorField Text → LocatorField Text → IdentityMatch
unfolding equality_match
match_primary_identity expected (known actual) fallback = equality_match expected actual
match_primary_identity expected unread fallback = unknown_identity
match_primary_identity expected absent (known actual) = equality_match expected actual
match_primary_identity expected absent unread = unknown_identity
match_primary_identity expected absent absent = other_identity

abbrev pub is_unread : LocatorField Text → Bool
is_unread unread = true
is_unread _ = false

abbrev pub is_known : LocatorField Text → Bool
is_known (known t) = true
is_known _ = false

unfoldable pub empty_identity_match :
    LocatorField Text → LocatorField Text → LocatorField Text → IdentityMatch
empty_identity_match name value description =
    if is_unread name || is_unread value || is_unread description
    then unknown_identity
    else if is_known name || is_known value || is_known description
    then other_identity
    else unknown_identity

unfoldable pub stable_value : Text → Option Text → Option Text
unfolding is_mutable_value_role meaningful_text
stable_value role value = if is_mutable_value_role role then none else meaningful_text value

unfoldable pub stable_value_field : Text → LocatorField Text → LocatorField Text
unfolding is_mutable_value_role meaningful_field
stable_value_field role value =
    if is_mutable_value_role role then absent else meaningful_field value

-- `actual.kind == expected.kind && actual.value == expected_value`.
unfoldable pub has_identifier : ElementIdentifier → List ElementIdentifier → Bool
unfolding identifier_eq
has_identifier expected identifiers =
    any (λ actual. kind_eq actual.kind expected.kind && text_eq actual.value expected.value)
      identifiers

unfoldable pub native_match : ElementIdentifier → IdentifierEvidence → IdentityMatch
unfolding meaningful_text has_identifier
native_match expected actual = elim (meaningful_text (some expected.value)) [
  | none ↦ unknown_identity
  | some value ↦
      if has_identifier (record { kind = expected.kind; value = value }) actual.identifiers
      then same_identity
      else if not actual.complete
      then unknown_identity
      else other_identity
]

unfoldable pub retained_match : Text → Option Text → IdentityMatch
unfolding meaningful_text equality_match
retained_match expected none = unknown_identity
retained_match expected (some actual) = elim (meaningful_text (some expected)) [
  | none ↦ unknown_identity
  | some text ↦ equality_match text actual
]

module _ (parse_f64 : Text → Option F64) where
  unfoldable pub numeric_text : Text → Option F64
  unfolding is_finite
  numeric_text text = elim (parse_f64 text) [
    | none ↦ none
    | some number ↦ if is_finite number then some number else none
  ]

  unfoldable pub numbers_equal : Option F64 → Option F64 → Bool
  unfolding le_f64
  numbers_equal none b = false
  numbers_equal (some a) none = false
  numbers_equal (some a) (some b) = le_f64 a b && le_f64 b a

  unfoldable pub value_matches_name : Option Text → Text → Bool
  unfolding numeric_text numbers_equal
  value_matches_name none name = false
  value_matches_name (some value) name =
      text_eq value name || numbers_equal (numeric_text value) (numeric_text name)

  unfoldable pub stable_name : Text → Option Text → Option Text → Option Text
  unfolding meaningful_text is_mutable_value_role value_matches_name
  stable_name role name value = elim (meaningful_text name) [
    | none ↦ none
    | some text ↦
        if is_mutable_value_role role && value_matches_name (meaningful_text value) text
        then none
        else some text
  ]

  -- The name of a role whose value may change, against the value.
  unfoldable pub name_against : LocatorField Text → LocatorField Text → LocatorField Text
  unfolding value_matches_name
  name_against (known name) (known value) =
      if value_matches_name (some value) name then absent else known name
  name_against (known name) absent = known name
  name_against (known name) unread = unread
  name_against absent value = absent
  name_against unread value = unread

  unfoldable pub stable_name_field :
      Text → LocatorField Text → LocatorField Text → LocatorField Text
  unfolding meaningful_field is_mutable_value_role name_against
  stable_name_field role name value =
      if not (is_mutable_value_role role)
      then meaningful_field name
      else name_against (meaningful_field name) (meaningful_field value)

  unfoldable pub has_stable_text_identity : RefEntry → Bool
  unfolding stable_name stable_value meaningful_text
  has_stable_text_identity entry =
      is_some (stable_name entry.identity.role entry.identity.name entry.identity.value)
      || is_some (stable_value entry.identity.role entry.identity.value)
      || is_some (meaningful_text entry.identity.description)

  unfoldable pub has_meaningful_identity : RefEntry → Bool
  unfolding has_stable_text_identity meaningful_text
  has_meaningful_identity entry =
      is_some entry.identity.retained_object
      || is_some_and entry.identity.native_id (λ i. is_some (meaningful_text (some i.value)))
      || has_stable_text_identity entry

  -- The end of `stable_text_match`, on the three fields as they count.
  unfoldable pub match_expected :
      Text
      → Option Text
      → Option Text
      → Option Text
      → LocatorField Text
      → LocatorField Text
      → LocatorField Text
      → IdentityMatch
  unfolding match_primary_identity empty_identity_match is_mutable_value_role
  match_expected role (some expected) value description n v d = match_primary_identity expected n v
  match_expected role none (some expected) description n v d = match_primary_identity expected v n
  match_expected role none none (some expected) n v d = match_primary_identity expected d n
  match_expected role none none none n v d =
      if is_mutable_value_role role then unknown_identity else empty_identity_match n v d

  unfoldable pub stable_text_match :
      RefEntry → LocatorField Text → LocatorField Text → LocatorField Text → IdentityMatch
  unfolding match_expected stable_name stable_value stable_name_field stable_value_field
  stable_text_match entry name value description =
      let role = entry.identity.role in
      match_expected role (stable_name role entry.identity.name entry.identity.value)
        (stable_value role entry.identity.value) (meaningful_text entry.identity.description)
        (stable_name_field role name value) (stable_value_field role value)
        (meaningful_field description)

  unfoldable pub identity_match :
      RefEntry
      → LocatorField Text
      → LocatorField Text
      → LocatorField Text
      → IdentifierEvidence
      → IdentityMatch
  unfolding retained_match native_match stable_text_match
  identity_match entry name value description identifiers = elim entry.identity.retained_object [
    | some expected ↦ retained_match expected identifiers.retained_object
    | none ↦ elim entry.identity.native_id [
      | some expected ↦ native_match expected identifiers
      | none ↦ stable_text_match entry name value description
    ]
  ]
