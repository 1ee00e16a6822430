-- ===== src/RefAlloc.antt =====
-- crates/core/src/ref_alloc.rs with ref_alloc_config.rs, ref_alloc_options.rs, ref_alloc_source.rs
-- and ref_alloc_scope.rs: which nodes get a ref, and the walk that gives them out.
pub mod Anchors
pub mod Collapsible
pub mod Steps
pub mod Own
pub mod Order
pub mod Transform
use agent_desktop.Prelude.{
  Bool, List, Option, Result, [], any, false, if◌then◌else◌, is_empty, is_none, is_none_or, is_some,
  is_some_and, keep_if, none, not, ok, some, ℕ, ◌&&◌, ◌>>=◌, ◌||◌, ◌∷◌, true, ◌++◌, ◌+◌, ◌==◌,
}
use agent_desktop.Text.{Text, codes, is_blank, text_eq, text_in}
use agent_desktop.Error.{AppError}
use agent_desktop.Role.{from_token, is_canonical, is_transparent_wrapper}
use agent_desktop.Roles.{interactive_roles}
use agent_desktop.RefEntry.{RefEntry, SnapshotSurface, is_known_kind}
use agent_desktop.RefMap.{
  RefMap, allocated, skipped_invalid_entry, skipped_invalid_role, try_allocate_observed,
}
use agent_desktop.Tree.{
  AccessibilityNode, NodeData, Nodes, children, cons, is_singleton, nil, no_nodes, node,
  promote_first, node_data,
}
use agent_desktop.Geometry.{Rect, is_valid_rect, bounds_hash}

pub record RefAllocOptions : Type 0 where
  pub include_bounds : Bool
  pub interactive_only : Bool
  pub compact : Bool

pub record RefAllocSource : Type 0 where
  pub pid : ℕ
  pub app : Option Text
  pub process_instance : Option Text
  pub window_id : Option Text
  pub window_title : Option Text
  pub window_bounds_hash : Option ℕ
  pub surface : SnapshotSurface

pub record RefAllocScope : Type 0 where
  pub root_ref_id : Option Text
  pub path_prefix : List ℕ

pub record RefAllocConfig : Type 0 where
  pub options : RefAllocOptions
  pub source : RefAllocSource
  pub scope : RefAllocScope

abbrev pub ubiquitous_affordances : List Text
ubiquitous_affordances = codes "SetFocus" ∷ codes "RightClick" ∷ codes "ScrollTo" ∷ []

unfoldable pub advertises_primary_action : List Text → Bool
advertises_primary_action available_actions =
    any (λ action. not (text_in ubiquitous_affordances action)) available_actions

unfoldable pub is_ref_able_role_actions : Text → List Text → Bool
is_ref_able_role_actions role available_actions =
    text_in interactive_roles role || advertises_primary_action available_actions

unfoldable pub is_ref_able : NodeData → Bool
unfolding is_ref_able_role_actions
is_ref_able d = is_ref_able_role_actions d.role d.presentation.available_actions

-- `as_deref().is_none_or(|value| value.trim().is_empty())`.
abbrev pub is_blank_option : Option Text → Bool
is_blank_option o = is_none_or o is_blank

unfoldable pub is_collapsible : AccessibilityNode → Bool
is_collapsible (node d cs) =
    is_transparent_wrapper (from_token d.role)
    && (is_none d.ref_id
        && (is_blank_option d.identity.name
            && (is_blank_option d.identity.value
                && (is_blank_option d.identity.description
                    && (is_none d.identity.native_id
                        && (is_blank_option d.presentation.hint
                            && (is_empty d.presentation.states
                                && (is_empty d.presentation.available_actions
                                    && (is_none d.presentation.bounds
                                        && (is_none d.children_count && is_singleton cs))))))))))

unfoldable pub can_receive_observed_ref : NodeData → Bool
can_receive_observed_ref d = is_canonical d.role && not (text_eq d.role (codes "unknown"))

unfoldable pub has_meaningful_text : Option Text → Bool
has_meaningful_text value = is_some_and value (λ text. not (is_blank text))

abbrev pub strip_bounds : Bool → NodeData → NodeData
strip_bounds include_bounds d =
    if include_bounds
    then d
    else record d { presentation = record d.presentation { bounds = none } }

-- A leaf that carries neither a ref nor a marker of cut descendants is pruned.
abbrev pub is_bare_leaf : AccessibilityNode → Bool
is_bare_leaf (node d cs) = not (is_ref_able d) && (no_nodes cs && is_none d.children_count)

-- `transform_tree`: the same shape of tree, without refs.
unfoldable mutual
  pub transform_tree : RefAllocOptions → AccessibilityNode → AccessibilityNode
  transform_tree o (node d cs) = node (strip_bounds o.include_bounds d) (transform_children o cs)

  pub transform_children : RefAllocOptions → Nodes → Nodes
  transform_children o nil = nil
  transform_children o (cons child rest) =
      let child' = transform_tree o child in
      let rest' = transform_children o rest in
      if o.compact && is_collapsible child
      then promote_first (children child') rest'
      else if o.interactive_only && is_bare_leaf child'
      then rest'
      else cons child' rest'

-- `skeleton_anchors.contains(path)`.
unfoldable pub path_eq : List ℕ → List ℕ → Bool
path_eq [] [] = true
path_eq (i ∷ p) (j ∷ q) = i == j && path_eq p q
path_eq _ _ = false

unfoldable pub path_in : List (List ℕ) → List ℕ → Bool
path_in paths path = any (λ p. path_eq p path) paths

abbrev pub meaningful_string : Option Text → Option Text
meaningful_string value = keep_if (λ text. not (is_empty text)) value

module _ (hash : Rect → ℕ) where
  unfoldable pub ref_entry_from_node : NodeData → RefAllocSource → Option Text → List ℕ → RefEntry
  ref_entry_from_node d source root_ref path =
      let bounds = keep_if is_valid_rect d.presentation.bounds in
      record {
        process = record { pid = source.pid; process_instance = source.process_instance };
        identity = record {
          retained_object = d.identity.retained_object;
          role = d.role;
          name = meaningful_string d.identity.name;
          value = meaningful_string d.identity.value;
          description = meaningful_string d.identity.description;
          native_id = keep_if (λ id. not (is_blank id.value)) d.identity.native_id;
        };
        geometry = record {
          bounds = bounds;
          bounds_hash = elim bounds [ none ↦ none | some b ↦ bounds_hash hash b ];
        };
        capabilities = record {
          states = d.presentation.states;
          available_actions = d.presentation.available_actions;
        };
        source = record {
          source_app = source.app;
          source_window_id = source.window_id;
          source_window_title = source.window_title;
          source_window_bounds_hash = source.window_bounds_hash;
          source_surface = source.surface;
        };
        scope = record { root_ref = root_ref; path_is_absolute = false; path = path };
      }

  unfoldable pub is_resolvable_skeleton_anchor : NodeData → Bool
  is_resolvable_skeleton_anchor d =
      can_receive_observed_ref d
      && (has_meaningful_text d.identity.name
          || has_meaningful_text d.identity.description
          || is_some_and d.identity.native_id (λ i. is_known_kind i.kind && not (is_blank i.value))
          || is_some_and d.presentation.bounds (λ b. is_some (bounds_hash hash b)))

  unfoldable pub allocate_observed_ref : RefMap → RefEntry → Result AppError (Option Text × RefMap)
  allocate_observed_ref m entry = try_allocate_observed hash m entry >>= λ (allocation, m').
      elim allocation [
        | allocated ref_id ↦ ok (some ref_id, m')
        | skipped_invalid_role ↦ ok (none, m')
        | skipped_invalid_entry ↦ ok (none, m')
      ]

  -- What `plan_skeleton_anchors` does with a node once its children are planned.
  unfoldable pub settle : NodeData → List ℕ → Bool × List (List ℕ) → Bool × List (List ℕ)
  settle d path (uncovered, anchors) =
      if not uncovered
      then (false, anchors)
      else if can_receive_observed_ref d && is_ref_able d
      then (false, anchors)
      else if not (is_empty path) && is_resolvable_skeleton_anchor d
      then (false, path ∷ anchors)
      else (true, anchors)

  -- `plan_skeleton_anchors`: whether a boundary below is still uncovered, and the anchors so far.
  unfoldable mutual
    pub plan_skeleton_anchors : AccessibilityNode → List ℕ → List (List ℕ) → Bool × List (List ℕ)
    plan_skeleton_anchors (node d cs) path anchors =
        settle d path (plan_children cs path 0 (is_some d.children_count) anchors)

    pub plan_children : Nodes → List ℕ → ℕ → Bool → List (List ℕ) → Bool × List (List ℕ)
    plan_children nil path index uncovered anchors = (uncovered, anchors)
    plan_children (cons child rest) path index uncovered anchors =
        let planned = plan_skeleton_anchors child (path ++ (index ∷ [])) anchors in
        plan_children rest path (index + 1) (uncovered || planned.0) planned.1

  abbrev pub drop_bounds : Bool → RefEntry → RefEntry
  drop_bounds include_bounds e =
      if include_bounds then e else record e { geometry = record e.geometry { bounds = none } }

  -- The entry of a ref-able node.
  unfoldable pub primary_entry : RefAllocConfig → NodeData → List ℕ → RefEntry
  primary_entry config d path =
      let entry = ref_entry_from_node d config.source config.scope.root_ref_id path in
      drop_bounds config.options.include_bounds (record entry {
        scope = record entry.scope { path_is_absolute = is_some config.scope.root_ref_id };
      })

  -- The entry of a skeleton anchor.
  unfoldable pub anchor_entry : RefAllocConfig → NodeData → List ℕ → RefEntry
  anchor_entry config d path =
      let entry = ref_entry_from_node d config.source none path in
      drop_bounds config.options.include_bounds
        (record entry { capabilities = record entry.capabilities { available_actions = [] } })

  unfoldable pub allocate_with : NodeData → RefEntry → RefMap → Result AppError (NodeData × RefMap)
  allocate_with d entry m =
      allocate_observed_ref m entry >>= λ (ref_id, m'). ok (record d { ref_id = ref_id }, m')

  -- `allocate_refs_at_path` up to the children: the ref of the node itself, and its bounds.
  unfoldable pub allocate_own :
      RefAllocConfig
      → List (List ℕ)
      → NodeData
      → RefMap
      → List ℕ
      → Result AppError (NodeData × RefMap)
  allocate_own config anchors d m path =
      (if is_ref_able d
        then allocate_with d (primary_entry config d path) m
        else if path_in anchors path
        then allocate_with d (anchor_entry config d path) m
        else ok (d, m))
      >>= λ (d', m'). ok (strip_bounds config.options.include_bounds d', m')

  -- What the loop over the children does with a child that has its refs.
  unfoldable pub keep_child :
      RefAllocOptions → AccessibilityNode → AccessibilityNode → Nodes → Nodes
  keep_child o child child' rest =
      if o.compact && is_collapsible child
      then promote_first (children child') rest
      else if o.interactive_only && (is_none (node_data child').ref_id && is_bare_leaf child')
      then rest
      else cons child' rest

  unfoldable mutual
    pub allocate_refs_at_path :
        RefAllocConfig
        → List (List ℕ)
        → AccessibilityNode
        → RefMap
        → List ℕ
        → Result AppError (AccessibilityNode × RefMap)
    allocate_refs_at_path config anchors (node d cs) m path =
        allocate_own config anchors d m path >>= λ (d', m₁).
        allocate_children config anchors cs m₁ path 0 >>= λ (cs', m₂). ok (node d' cs', m₂)

    pub allocate_children :
        RefAllocConfig
        → List (List ℕ)
        → Nodes
        → RefMap
        → List ℕ
        → ℕ
        → Result AppError (Nodes × RefMap)
    allocate_children config anchors nil m path index = ok (nil, m)
    allocate_children config anchors (cons child rest) m path index =
        allocate_refs_at_path config anchors child m (path ++ (index ∷ [])) >>= λ (child', m₁).
        allocate_children config anchors rest m₁ path (index + 1) >>= λ (rest', m₂).
        ok (keep_child config.options child child' rest', m₂)

  -- `allocate_refs`. On an error the callers drop the map.
  unfoldable pub allocate_refs :
      RefAllocConfig → AccessibilityNode → RefMap → Result AppError (AccessibilityNode × RefMap)
  allocate_refs config tree m =
      let anchors =
        if is_none config.scope.root_ref_id then (plan_skeleton_anchors tree [] []).1 else [] in
      allocate_refs_at_path config anchors tree m config.scope.path_prefix
