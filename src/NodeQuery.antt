-- ===== src/NodeQuery.antt =====
-- crates/core/src/locator.rs and containment_predicate.rs, queries with
-- nested queries on what a node contains, and whether a node of a snapshot matches one. `lower` is
-- char::to_lowercase beyond ASCII.
pub mod Clauses
pub mod Descendants
pub mod Limits
use agent_desktop.Prelude.{
  Bool, List, Option, Result, [], all, any, false, flatten_options, guard, if◌then◌else◌,
  map_option, none, not, ok, some, true, unwrap_or, ℕ, ◌&&◌, ◌>>◌, ◌||◌, ◌∷◌,
}
use agent_desktop.Text.{Text, codes, text_eq, text_in}
use agent_desktop.Error.{AdapterError, invalid_args, new, with_suggestion}
use agent_desktop.Roles.{normalize_role_query}
use agent_desktop.Capability.{has_state}
use agent_desktop.SearchText.{normalize, contains}
use agent_desktop.Tree.{AccessibilityNode, NodeData, Nodes, cons, nil, node}
use agent_desktop.Locator.{LocatorQuery, StatePredicate, bool_eq}

-- `LocatorQuery` with its `containment`: the query itself, `has` and `has_not`.
mutual
  pub data TreeQuery : Type 0 where
    clause : LocatorQuery → NestedQuery → NestedQuery → TreeQuery

  pub data NestedQuery : Type 0 where
    no_query : NestedQuery
    nested : TreeQuery → NestedQuery

abbrev pub no_nested : NestedQuery → Bool
no_nested no_query = true
no_nested (nested query) = false

abbrev pub state_vocabulary : List Text
state_vocabulary =
    codes "focused"
    ∷ codes "disabled"
    ∷ codes "secure"
    ∷ codes "expanded"
    ∷ codes "checked"
    ∷ codes "selected"
    ∷ codes "hidden"
    ∷ codes "busy"
    ∷ codes "modal"
    ∷ codes "required"
    ∷ codes "indeterminate"
    ∷ codes "pressed"
    ∷ codes "readonly"
    ∷ codes "offscreen"
    ∷ codes "invalid"
    ∷ codes "multiselectable"
    ∷ codes "haspopup"
    ∷ []

abbrev pub unknown_state : AdapterError
unknown_state = with_suggestion "Use one of: {}" (new invalid_args "Unknown state token '{}'")

unfoldable mutual
  pub validate_states : TreeQuery → Result AdapterError (Unit {0})
  validate_states (clause query has has_not) =
      guard (all (λ p. text_in state_vocabulary p.token) query.states) unknown_state
      >> validate_nested has
      >> validate_nested has_not

  pub validate_nested : NestedQuery → Result AdapterError (Unit {0})
  validate_nested no_query = ok tt
  validate_nested (nested query) = validate_states query

-- What `node_matches` reads of a node but its children.
abbrev pub native_value : NodeData → Option Text
native_value d = map_option (λ i. i.value) d.identity.native_id

abbrev pub state_matches : List Text → StatePredicate → Bool
state_matches states p = bool_eq (unwrap_or p.expected true) (has_state states p.token)

unfoldable pub role_matches : Option Text → Text → Bool
unfolding normalize_role_query text_eq
role_matches none role = true
role_matches (some expected) role = text_eq (normalize_role_query expected) role

unfoldable pub native_id_matches : Option Text → Option Text → Bool
unfolding text_eq
native_id_matches none actual = true
native_id_matches (some expected) none = false
native_id_matches (some expected) (some actual) = text_eq actual expected

unfoldable pub state_predicates_match : List StatePredicate → List Text → Bool
unfolding has_state
state_predicates_match predicates states = all (state_matches states) predicates

module _ (lower : ℕ → Text) where
  unfoldable pub text_matches : Text → Text → Bool → Bool
  unfolding normalize contains text_eq
  text_matches actual expected exact =
      if exact then text_eq (normalize lower actual) expected else contains lower actual expected

  unfoldable pub text_field_matches : Option Text → Option Text → Bool → Bool
  unfolding text_matches
  text_field_matches none actual exact = true
  text_field_matches (some expected) none exact = false
  text_field_matches (some expected) (some actual) exact = text_matches actual expected exact

  unfoldable pub own_text_matches : Text → Bool → NodeData → Bool
  unfolding text_matches
  own_text_matches expected exact d =
      any (λ text. text_matches text expected exact)
        (flatten_options (d.identity.name ∷ d.identity.description ∷ d.identity.value ∷ []))

  unfoldable mutual
    unfolding own_text_matches

    pub subtree_has_text : Text → Bool → AccessibilityNode → Bool
    subtree_has_text expected exact (node d kids) =
        own_text_matches expected exact d || some_child_has_text expected exact kids

    pub some_child_has_text : Text → Bool → Nodes → Bool
    some_child_has_text expected exact nil = false
    some_child_has_text expected exact (cons c cs) =
        subtree_has_text expected exact c || some_child_has_text expected exact cs

  unfoldable pub has_text_matches : Option Text → Bool → AccessibilityNode → Bool
  unfolding subtree_has_text
  has_text_matches none exact n = true
  has_text_matches (some expected) exact n = subtree_has_text expected exact n

  -- The tests of `node_matches` before `has_text`.
  unfoldable pub identity_matches : LocatorQuery → NodeData → Bool
  unfolding role_matches text_field_matches native_id_matches
  identity_matches query d =
      role_matches query.identity.role d.role
      && text_field_matches query.identity.name d.identity.name query.exact
      && text_field_matches query.identity.description d.identity.description query.exact
      && native_id_matches query.identity.native_id (native_value d)
      && text_field_matches query.identity.value d.identity.value query.exact

  unfoldable mutual
    unfolding identity_matches has_text_matches state_predicates_match

    pub node_matches : TreeQuery → AccessibilityNode → Bool
    node_matches (clause query has has_not) (node d kids) =
        identity_matches query d
        && has_text_matches query.has_text query.exact (node d kids)
        && state_predicates_match query.states d.presentation.states
        && (no_nested has || subtree_contains has kids)
        && not (subtree_contains has_not kids)

    -- `subtree_contains` of a nested query; there is nothing to contain where there is none.
    pub subtree_contains : NestedQuery → Nodes → Bool
    subtree_contains no_query kids = false
    subtree_contains (nested query) nil = false
    subtree_contains (nested query) (cons (node d kids) cs) =
        (node_matches query (node d kids) || subtree_contains (nested query) kids)
        || subtree_contains (nested query) cs
