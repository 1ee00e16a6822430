-- ===== src/Examples/Queries.antt =====
-- The theorems on queries at a small node and a short list of matches.
use agent_desktop.NodeQuery.Limits.{
  validate_query, validate_clause, validate_fields, validate_query-compile_clauses,
}
use agent_desktop.NodeQuery.{
  validate_states, TreeQuery, clause, nested, no_query, node_matches, identity_matches,
  has_text_matches, subtree_has_text, text_matches, text_field_matches, role_matches,
  native_id_matches, state_predicates_match, own_text_matches,
}
use agent_desktop.Roles.{is_valid_role_query, role_query_alias, normalize_role_query}
use agent_desktop.Role.{is_canonical, as_str, from_token}
use agent_desktop.Text.{text_eq, len, trim, to_ascii_lowercase, contains_text, Text, codes}
use agent_desktop.Prelude.{
  length, ◌≤◌, List, [], false, inl, inr, none, ok, refl, some, true, ℕ, ◌↔◌, ◌∷◌, ◌≡◌, Option,
}
use agent_desktop.NodeQuery.Clauses.{IsCompiled, compile_clauses, compile_clauses-IsCompiled}
use agent_desktop.SearchText.{normalize, normalize_from, contains, is_bidirectional_control}
use agent_desktop.Capability.{has_state}
use agent_desktop.NodeQuery.Descendants.{matches, node_matches-matches}
use agent_desktop.Tree.{AccessibilityNode, NodeData, cons, nil, node}
use agent_desktop.Identifiers.{IdentifierEvidence}
use agent_desktop.RefEntry.{unknown_kind}
use agent_desktop.Locator.{
  LocatorEvidence, LocatorField, LocatorIdentifierStats, LocatorQuery, absent, known, self_verdict,
  unread,
}
use agent_desktop.Locator.Monotone.{Completes, Refines, self_verdict-Refines}
use agent_desktop.Locator.Resolution.{all_matches, require_unique, selected_indices, take_matches}
use agent_desktop.Locator.Resolution.Unique.{
  require_unique_iff, selected_indices_untruncated, strict_resolution,
}

abbrev keep_case : ℕ → Text
keep_case c = c ∷ []

abbrev one_identifier : IdentifierEvidence
one_identifier = record {
  identifiers = record { kind = unknown_kind; value = codes "save-button" } ∷ [];
  preferred = some 0;
  complete = true;
  retained_object = none;
}

-- A node whose name was not read, and the same node with its name.
abbrev named_as : LocatorField Text → LocatorEvidence
named_as name = record {
  role = known (codes "button");
  name = name;
  description = absent;
  value = absent;
  identifiers = one_identifier;
  states = known [];
}

abbrev before : LocatorEvidence
before = named_as unread

abbrev after : LocatorEvidence
after = named_as (known (codes "Save"))

before-Completes : Completes before after
before-Completes = record {
  role = inr refl;
  name = inl refl;
  description = inr refl;
  value = inr refl;
  identifiers = record { finished = λ c. refl; extended = λ t h. h };
  states = inr refl;
}

abbrev save_query : LocatorQuery
save_query = record {
  identity = record {
    role = some (codes "button");
    name = some (codes "save");
    description = none;
    native_id = none;
    value = none;
  };
  has_text = none;
  exact = false;
  states = [];
}

abbrev no_stats : LocatorIdentifierStats
no_stats = record { preferred_matches = 0; fallback_matches = 0 }

self_verdict-Refines_example :
    Refines
      (self_verdict keep_case save_query before no_stats).0
      (self_verdict keep_case save_query after no_stats).0
self_verdict-Refines_example =
    self_verdict-Refines keep_case save_query before after no_stats no_stats before-Completes

abbrev three_matches : List ℕ
three_matches = 4 ∷ 7 ∷ 9 ∷ []

selected_indices_untruncated_example :
    (selected_indices three_matches (all_matches (some 5))).0 ≡ three_matches
unfolding selected_indices take_matches
selected_indices_untruncated_example =
    selected_indices_untruncated three_matches (all_matches (some 5)) refl refl

require_unique_iff_example :
    (require_unique (strict_resolution three_matches true) ≡ ok 4)
    ↔ ((true ≡ true) × (three_matches ≡ 4 ∷ []))
require_unique_iff_example = require_unique_iff three_matches true 4

abbrev by_role : Text → Option Text → LocatorQuery
by_role role text = record {
  identity = record {
    role = some role;
    name = none;
    description = none;
    native_id = none;
    value = none;
  };
  has_text = text;
  exact = false;
  states = [];
}

-- A window with the text "save", with a button and without a dialog.
abbrev window_query : TreeQuery
window_query =
    clause (by_role (codes "window") (some (codes "save")))
      (nested (clause (by_role (codes "button") none) no_query no_query))
      (nested (clause (by_role (codes "dialog") none) no_query no_query))

abbrev shown : Text → Text → NodeData
shown role name = record {
  ref_id = none;
  role = role;
  identity = record {
    retained_object = none;
    name = some name;
    value = none;
    description = none;
    native_id = none;
  };
  presentation = record { hint = none; states = []; available_actions = []; bounds = none };
  children_count = none;
  subtree_truncated = false;
}

abbrev editor_tree : AccessibilityNode
editor_tree = node (shown (codes "window") (codes "Editor")) (
    cons
      (node (shown (codes "group") (codes "Tools"))
        (cons (node (shown (codes "button") (codes "Save")) nil) nil))
      nil)

editor_matches : node_matches (λ c. []) window_query editor_tree ≡ true
unfolding node_matches identity_matches has_text_matches subtree_has_text normalize text_eq
    text_matches text_field_matches role_matches native_id_matches state_predicates_match
    normalize_role_query own_text_matches contains normalize_from has_state as_str role_query_alias
    from_token contains_text is_bidirectional_control
editor_matches = refl

node_matches-matches_example :
    node_matches (λ c. []) window_query editor_tree ≡ matches (λ c. []) window_query editor_tree
node_matches-matches_example = node_matches-matches (λ c. []) window_query editor_tree

compiled_last : (compile_clauses window_query []).0 ≡ 2
unfolding compile_clauses
compiled_last = refl

compile_clauses-IsCompiled_example :
    IsCompiled [] window_query
      (compile_clauses window_query []).0
      (compile_clauses window_query []).1
compile_clauses-IsCompiled_example = compile_clauses-IsCompiled window_query []

window_query_accepted : validate_query window_query ≡ ok tt
unfolding validate_query validate_clause validate_fields validate_states is_valid_role_query text_eq
    role_query_alias contains_text is_canonical trim to_ascii_lowercase len
window_query_accepted = refl

validate_query-compile_clauses_example : length (compile_clauses window_query []).1 ≤ 64
validate_query-compile_clauses_example =
    validate_query-compile_clauses window_query window_query_accepted
