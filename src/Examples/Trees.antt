-- ===== src/Examples/Trees.antt =====
-- The walk of `allocate_refs` over a window that holds a wrapped button, a label and a link.
use agent_desktop.Role.{is_transparent_wrapper, from_token}
use agent_desktop.Text.{text_in, codes, Text}
use agent_desktop.RefEntry.{SnapshotSurface, validate_ref_entry}
use agent_desktop.RefAlloc.Steps.{Walked}
use agent_desktop.RefAlloc.Order.{allocate_refs_lem}
use agent_desktop.RefAlloc.Transform.{NoBounds, transform_tree_without_bounds}
use agent_desktop.Prelude.{
  map, refl, ◌∷◌, [], List, Option, Result, err, false, none, ok, some, true, ℕ, ◌+◌, ◌≡◌,
}
use agent_desktop.Error.{AppError}
use agent_desktop.RefMap.{RefMap, allocate_validated, empty, ref_key, try_allocate_observed}
use agent_desktop.Tree.{AccessibilityNode, NodeData, cons, nil, node, ref_nodes}
use agent_desktop.RefAlloc.{
  RefAllocConfig, advertises_primary_action, allocate_observed_ref, allocate_own, allocate_refs,
  allocate_refs_at_path, allocate_with, is_collapsible, is_ref_able, keep_child, path_in,
  plan_skeleton_anchors, primary_entry, ref_entry_from_node, settle, transform_tree,
}
use agent_desktop.Geometry.{Rect}

abbrev corner_hash : Rect → ℕ
corner_hash r = r.x + r.y

abbrev plain_node : Text → Option Text → List Text → NodeData
plain_node role name actions = record {
  ref_id = none;
  role = role;
  identity = record {
    retained_object = none;
    name = name;
    value = none;
    description = none;
    native_id = none;
  };
  presentation = record { hint = none; states = []; available_actions = actions; bounds = none };
  children_count = none;
  subtree_truncated = false;
}

abbrev leaf : Text → Text → List Text → AccessibilityNode
leaf role name actions = node (plain_node role (some name) actions) nil

abbrev window_tree : AccessibilityNode
window_tree = node (plain_node (codes "window") (some (codes "Editor")) []) (
    cons
      (node (plain_node (codes "group") none [])
        (cons (leaf (codes "button") (codes "Save") (codes "Click" ∷ [])) nil))
      (cons (leaf (codes "statictext") (codes "Ready") [])
        (cons (leaf (codes "link") (codes "Help") (codes "Click" ∷ [])) nil)))

abbrev window_config : RefAllocConfig
window_config = record {
  options = record { include_bounds = false; interactive_only = true; compact = true };
  source = record {
    pid = 7;
    app = some (codes "Editor");
    process_instance = some (codes "boot-1");
    window_id = none;
    window_title = none;
    window_bounds_hash = none;
    surface = SnapshotSurface.window;
  };
  scope = record { root_ref_id = none; path_prefix = [] };
}

abbrev walk : Result AppError (AccessibilityNode × RefMap)
walk = allocate_refs corner_hash window_config window_tree empty

abbrev walk_of : Result AppError (AccessibilityNode × RefMap) → AccessibilityNode × RefMap
walk_of (ok r) = r
walk_of (err e) = (window_tree, empty)

walk_succeeds : walk ≡ ok (walk_of walk)
unfolding allocate_refs allocate_refs_at_path allocate_own is_ref_able text_in
    advertises_primary_action path_in plan_skeleton_anchors settle allocate_with
    allocate_observed_ref try_allocate_observed primary_entry ref_entry_from_node validate_ref_entry
    allocate_validated
walk_succeeds = refl

-- The button and the link get a ref, in this order.
walk_refs : map (λ p. p.0) (ref_nodes (walk_of walk).0) ≡ codes "@e1" ∷ codes "@e2" ∷ []
unfolding allocate_refs allocate_refs_at_path allocate_own is_ref_able text_in
    advertises_primary_action path_in plan_skeleton_anchors settle allocate_with
    allocate_observed_ref try_allocate_observed primary_entry ref_entry_from_node validate_ref_entry
    allocate_validated ref_nodes is_collapsible keep_child is_transparent_wrapper from_token ref_key
walk_refs = refl

allocate_refs_lem_example : Walked corner_hash empty (walk_of walk).1 (ref_nodes (walk_of walk).0)
allocate_refs_lem_example =
    allocate_refs_lem corner_hash window_config window_tree empty (walk_of walk)
      (refl, ((refl, ((refl, tt), tt)), ((refl, tt), ((refl, tt), tt)))) tt (λ u. refl)
      walk_succeeds

transform_tree_without_bounds_example : NoBounds (transform_tree window_config.options window_tree)
transform_tree_without_bounds_example =
    transform_tree_without_bounds window_config.options window_tree refl
