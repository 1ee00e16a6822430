-- ===== src/Locator.antt =====
-- crates/core/src/live_locator: match_verdict.rs, locator_field.rs, identifier_evidence.rs and
-- predicate.rs, with locator.rs, identity_predicate.rs, state_predicate.rs and
-- locator_identifier_stats.rs: the three-valued match of a query on what was observed of a node.
pub mod Monotone
pub mod Resolution
use agent_desktop.Identifiers.{IdentifierEvidence, preferred_value, values}
use agent_desktop.Prelude.{
  Bool, List, Option, all, any, false, if◌then◌else◌, is_empty, none, not, some, true, unwrap_or, ℕ,
  ◌%◌, ◌+◌, ◌^◌,
}
use agent_desktop.Text.{Text, text_eq}
use agent_desktop.SearchText.{contains, normalize}
use agent_desktop.Capability.{has_state}

pub data MatchVerdict : Type 0 where
  matching no_match unknown_match : MatchVerdict

unfoldable pub both : MatchVerdict → MatchVerdict → MatchVerdict
both no_match w = no_match
both v no_match = no_match
both matching matching = matching
both _ _ = unknown_match

unfoldable pub either : MatchVerdict → MatchVerdict → MatchVerdict
either matching w = matching
either v matching = matching
either no_match no_match = no_match
either _ _ = unknown_match

unfoldable pub negate : MatchVerdict → MatchVerdict
negate matching = no_match
negate no_match = matching
negate unknown_match = unknown_match

pub data LocatorField (A : Type 0) : Type 0 where
  known : A → LocatorField A
  absent : LocatorField A
  unread : LocatorField A

-- `LocatorField::known`.
abbrev pub known_value : {A : Type 0} → LocatorField A → Option A
known_value (known a) = some a
known_value absent = none
known_value unread = none

-- `LocatorEvidence` but for `ref_evidence`, which no predicate reads.
pub record LocatorEvidence : Type 0 where
  pub role : LocatorField Text
  pub name : LocatorField Text
  pub description : LocatorField Text
  pub value : LocatorField Text
  pub identifiers : IdentifierEvidence
  pub states : LocatorField (List Text)

pub record IdentityPredicate : Type 0 where
  pub role : Option Text
  pub name : Option Text
  pub description : Option Text
  pub native_id : Option Text
  pub value : Option Text

pub record StatePredicate : Type 0 where
  pub token : Text
  pub expected : Option Bool

-- `LocatorQuery` but for its `containment`, which a node's own verdict does not read.
pub record LocatorQuery : Type 0 where
  pub identity : IdentityPredicate
  pub has_text : Option Text
  pub exact : Bool
  pub states : List StatePredicate

unfoldable pub bool_verdict : Bool → MatchVerdict
bool_verdict true = matching
bool_verdict false = no_match

-- A test of a field whose value was read.
unfoldable pub field_verdict : {A : Type 0} → (A → Bool) → LocatorField A → MatchVerdict
unfolding bool_verdict
field_verdict test (known a) = bool_verdict (test a)
field_verdict test absent = no_match
field_verdict test unread = unknown_match

unfoldable pub role_verdict : Option Text → LocatorField Text → MatchVerdict
role_verdict none actual = matching
role_verdict (some expected) actual = field_verdict (λ a. text_eq a expected) actual

pub data IdentifierMatch : Type 0 where
  by_preferred by_fallback : IdentifierMatch

abbrev pub option_text_is : Option Text → Text → Bool
option_text_is none t = false
option_text_is (some s) t = text_eq s t

unfoldable pub identifier_verdict :
    Option Text → LocatorEvidence → MatchVerdict × Option IdentifierMatch
identifier_verdict none evidence = (matching, none)
identifier_verdict (some expected) evidence =
    if option_text_is (preferred_value evidence.identifiers) expected
    then (matching, some by_preferred)
    else if any (λ actual. text_eq actual expected) (values evidence.identifiers)
    then (matching, some by_fallback)
    else if not evidence.identifiers.complete
    then (unknown_match, none)
    else (no_match, none)

abbrev pub bool_eq : Bool → Bool → Bool
bool_eq true b = b
bool_eq false b = not b

abbrev pub expects_false : Option Bool → Bool
expects_false (some false) = true
expects_false _ = false

unfoldable pub states_verdict : LocatorQuery → LocatorEvidence → MatchVerdict
unfolding bool_verdict
states_verdict query evidence = if is_empty query.states then matching else elim evidence.states [
  | known states ↦ bool_verdict (
      all
        (λ predicate.
          bool_eq (has_state states predicate.token) (unwrap_or predicate.expected true))
        query.states)
  | absent ↦ bool_verdict (all (λ predicate. expects_false predicate.expected) query.states)
  | unread ↦ unknown_match
]

-- The counts of `LocatorIdentifierStats` that the predicate changes.
pub record LocatorIdentifierStats : Type 0 where
  pub preferred_matches : ℕ
  pub fallback_matches : ℕ

abbrev pub is_no_match : MatchVerdict → Bool
is_no_match no_match = true
is_no_match _ = false

abbrev pub is_matching : MatchVerdict → Bool
is_matching matching = true
is_matching _ = false

abbrev pub count_match : Option IdentifierMatch → LocatorIdentifierStats → LocatorIdentifierStats
count_match none s = s
count_match (some by_preferred) s = record s {
  preferred_matches = (s.preferred_matches + 1) % 2 ^ 64;
}
count_match (some by_fallback) s = record s { fallback_matches = (s.fallback_matches + 1) % 2 ^ 64 }

module _ (to_lowercase : ℕ → Text) where
  unfoldable pub text_matched : Bool → Text → Text → Bool
  text_matched exact expected actual =
      if exact
      then text_eq (normalize to_lowercase actual) expected
      else contains to_lowercase actual expected

  unfoldable pub text_verdict : Option Text → LocatorField Text → Bool → MatchVerdict
  text_verdict none actual exact = matching
  text_verdict (some expected) actual exact = field_verdict (text_matched exact expected) actual

  -- The verdict of `self_verdict`. Past the early return the three texts are only added.
  unfoldable pub self_verdict_of : LocatorQuery → LocatorEvidence → MatchVerdict
  self_verdict_of query evidence =
      let verdict =
        both
          (both (role_verdict query.identity.role evidence.role)
            (identifier_verdict query.identity.native_id evidence).0)
          (states_verdict query evidence) in
      let texts =
        both
          (both (both verdict (text_verdict query.identity.name evidence.name query.exact))
            (text_verdict query.identity.description evidence.description query.exact))
          (text_verdict query.identity.value evidence.value query.exact) in
      if is_no_match verdict then verdict else texts

  -- `self_verdict`.
  unfoldable pub self_verdict :
      LocatorQuery
      → LocatorEvidence
      → LocatorIdentifierStats
      → MatchVerdict × LocatorIdentifierStats
  self_verdict query evidence stats =
      let verdict = self_verdict_of query evidence in
      (
        verdict,
        if is_matching verdict
            then count_match (identifier_verdict query.identity.native_id evidence).1 stats
            else stats,
      )

  -- `self_text_verdict`.
  unfoldable pub self_text_verdict : Option Text → LocatorEvidence → Bool → MatchVerdict
  self_text_verdict none evidence exact = matching
  self_text_verdict (some expected) evidence exact =
      let verdict = λ (field : LocatorField Text). text_verdict (some expected) field exact in
      let first = either no_match (verdict evidence.name) in
      let second = either first (verdict evidence.description) in
      let third = either second (verdict evidence.value) in
      if is_matching first then first else if is_matching second then second else third
