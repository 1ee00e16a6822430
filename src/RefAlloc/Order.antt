-- ===== src/RefAlloc/Order.antt =====
-- The walk of `allocate_refs`: refs are consecutive, in document order, none is lost where nodes are
-- collapsed or pruned, and each has an entry that describes its node.
use agent_desktop.RefAlloc.Own.{allocate_own-Walked, own_plain}
use agent_desktop.Text.{Text}
use agent_desktop.Prelude.{
  >>=-eq-ok, Bool, Bool-cases, List, [], append-nil, if◌then◌else◌, inl, inr, none, ok,
  ok-injective, refl, subst, sym, true, ℕ, ◌≡◌, &&-true, is_none, ◌&&◌, ◌++◌, ◌+◌, ◌∷◌, Option,
  Option-cases, ap, arith, some,
}
use agent_desktop.RefMap.{RefMap}
use agent_desktop.RefMap.Allocation.{AllEntries}
use agent_desktop.Tree.{
  NodeData, Nodes, node, own_ref, AccessibilityNode, children, cons, nil, node_data, promote_first,
  ref_nodes, ref_nodes_in, is_singleton, no_nodes,
}
use agent_desktop.Tree.Paths.{NoRefs, NoRefsIn}
use agent_desktop.RefAlloc.{
  RefAllocConfig, allocate_own, is_collapsible, RefAllocOptions, allocate_children,
  allocate_refs_at_path, is_bare_leaf, keep_child, allocate_refs, plan_skeleton_anchors,
}
use agent_desktop.RefAlloc.Collapsible.{collapsible_single}
use agent_desktop.RefAlloc.Anchors.{
  Fits, Fits-below, Fits-first, Fits-rest, FitsIn, plan_skeleton_anchors-Fits,
}
use agent_desktop.RefAlloc.Steps.{Walked, stays, follows}
use agent_desktop.Geometry.{Rect}

abbrev at_most_one : Nodes → Bool
at_most_one nil = true
at_most_one (cons c cs) = no_nodes cs

promote_refs :
    (cs rest : Nodes)
    → at_most_one cs ≡ true
    → ref_nodes_in cs ++ ref_nodes_in rest ≡ ref_nodes_in (promote_first cs rest)
unfolding ref_nodes
promote_refs nil rest h = refl
promote_refs (cons c nil) rest h = ap (λ t. t ++ ref_nodes_in rest) (append-nil (ref_nodes c))
promote_refs (cons c (cons c' cs)) rest h = cc

is_none→none : (o : Option Text) → is_none o ≡ true → o ≡ none
is_none→none none h = refl
is_none→none (some t) h = cc

module _ (hash : Rect → ℕ) where
  keep_child_one :
      (o : RefAllocOptions) (child child' : AccessibilityNode)
      → at_most_one (keep_child hash o child child' nil) ≡ true
  unfolding keep_child
  keep_child_one o child child' = elim (Bool-cases (o.compact && is_collapsible child)) [
    | inl y ↦ rw y (promoted (children child'))
    | inr n ↦
        elim (Bool-cases
          (o.interactive_only && (is_none (node_data child').ref_id && is_bare_leaf child'))) [
            | inl y ↦ rw (n, y) refl
            | inr k ↦ rw (n, k) refl
          ]
  ]
    where
      promoted : (cs : Nodes) → at_most_one (promote_first cs nil) ≡ true
      promoted nil = refl
      promoted (cons c cs) = refl

  -- What the loop keeps of a child holds all of its refs, followed by those of the rest.
  keep_child_refs :
      (o : RefAllocOptions) (child child' : AccessibilityNode) (rest : Nodes)
      → (is_collapsible child ≡ true
          → ((node_data child').ref_id ≡ none)
            × (ref_nodes_in (children child') ++ ref_nodes_in rest
                ≡ ref_nodes_in (promote_first (children child') rest)))
      → ref_nodes_in (keep_child hash o child child' rest) ≡ ref_nodes child' ++ ref_nodes_in rest
  unfolding keep_child ref_nodes
  keep_child_refs o child (node d cs) rest single =
      elim (Bool-cases (o.compact && is_collapsible child)) [
        | inl y ↦ let (bare, one) = single (&&-true _ _ y).1 in rw (y, bare) (sym one)
        | inr n ↦
            elim (Bool-cases
              (o.interactive_only && (is_none d.ref_id && is_bare_leaf (node d cs)))) [
                | inl y ↦ rw (n, y) (pruned d cs y)
                | inr k ↦ rw (n, k) refl
              ]
      ]
    where
      pruned :
          (d : NodeData) (cs : Nodes)
          → (o.interactive_only && (is_none d.ref_id && is_bare_leaf (node d cs))) ≡ true
          → ref_nodes_in rest ≡ (own_ref d.ref_id d ++ ref_nodes_in cs) ++ ref_nodes_in rest
      pruned d nil y =
          let bare : is_none d.ref_id ≡ true = ground arith in rw (is_none→none d.ref_id bare) refl
      pruned d (cons c cs) y = ground arith

  single_kept :
      (config : RefAllocConfig) (anchors : List (List ℕ)) (cs : Nodes) (m : RefMap) (path : List ℕ)
      (r : Nodes × RefMap)
      → is_singleton cs ≡ true
      → allocate_children hash config anchors cs m path 0 ≡ ok r
      → at_most_one r.0 ≡ true
  unfolding allocate_refs_at_path
  single_kept config anchors nil m path r h e = cc
  single_kept config anchors (cons c (cons c' cs)) m path r h e = cc
  single_kept config anchors (cons c nil) m path r h e =
      let (p, done, f) =
        >>=-eq-ok (allocate_refs_at_path hash config anchors c m (path ++ (0 ∷ []))) _ e in
      subst (λ (x : Nodes × RefMap). at_most_one x.0 ≡ true) (ok-injective f)
        (keep_child_one config.options c p.0)

  -- A collapsed node loses no ref: it has none, and only one child.
  collapsed :
      (config : RefAllocConfig) (anchors : List (List ℕ)) (c : AccessibilityNode) (m : RefMap)
      (path : List ℕ) (r : AccessibilityNode × RefMap) (rest : Nodes)
      → NoRefs c
      → Fits hash anchors c path
      → allocate_refs_at_path hash config anchors c m path ≡ ok r
      → is_collapsible c ≡ true
      → ((node_data r.0).ref_id ≡ none)
        × (ref_nodes_in (children r.0) ++ ref_nodes_in rest
            ≡ ref_nodes_in (promote_first (children r.0) rest))
  unfolding allocate_refs_at_path
  collapsed config anchors (node d cs) m path r rest (plain, below) fits e single =
      let (p, own, e₁) = >>=-eq-ok (allocate_own hash config anchors d m path) _ e in
      let (q, done, e₂) = >>=-eq-ok (allocate_children hash config anchors cs p.1 path 0) _ e₁ in
      subst
        (λ (x : AccessibilityNode × RefMap).
          ((node_data x.0).ref_id ≡ none)
          × (ref_nodes_in (children x.0) ++ ref_nodes_in rest
              ≡ ref_nodes_in (promote_first (children x.0) rest)))
        (ok-injective e₂)
        (
          own_plain hash config anchors d cs m path p plain single fits own,
          promote_refs q.0 rest
              (single_kept config anchors cs p.1 path q (collapsible_single hash d cs single) done),
        )

  mutual
    unfolding allocate_refs_at_path ref_nodes

    allocate_refs_at_path-Walked :
        (config : RefAllocConfig) (anchors : List (List ℕ)) (n : AccessibilityNode) (m : RefMap)
        (path : List ℕ) (r : AccessibilityNode × RefMap)
        → NoRefs n
        → Fits hash anchors n path
        → AllEntries hash m.counter m.inner
        → allocate_refs_at_path hash config anchors n m path ≡ ok r
        → Walked hash m r.1 (ref_nodes r.0)
    allocate_refs_at_path-Walked config anchors (node d cs) m path r (plain, below) fits es e =
        let (p, own, e₁) = >>=-eq-ok (allocate_own hash config anchors d m path) _ e in
        let (q, rest, e₂) = >>=-eq-ok (allocate_children hash config anchors cs p.1 path 0) _ e₁ in
        let here = allocate_own-Walked hash config anchors d m path p plain es own in
        let there =
          allocate_children-Walked config anchors cs p.1 path 0 q below
            (Fits-below hash d cs path anchors fits) here.entries rest in
        subst (λ (x : AccessibilityNode × RefMap). Walked hash m x.1 (ref_nodes x.0))
          (ok-injective e₂)
          (follows hash m p.1 q.1 (own_ref p.0.ref_id p.0) (ref_nodes_in q.0) here there)

    allocate_children-Walked :
        (config : RefAllocConfig) (anchors : List (List ℕ)) (cs : Nodes) (m : RefMap)
        (path : List ℕ) (index : ℕ) (r : Nodes × RefMap)
        → NoRefsIn cs
        → FitsIn hash anchors cs path index
        → AllEntries hash m.counter m.inner
        → allocate_children hash config anchors cs m path index ≡ ok r
        → Walked hash m r.1 (ref_nodes_in r.0)
    allocate_children-Walked config anchors nil m path index r plain fits es e =
        subst (λ (x : Nodes × RefMap). Walked hash m x.1 (ref_nodes_in x.0)) (ok-injective e)
          (stays hash m es)
    allocate_children-Walked config anchors (cons c cs) m path index r (plain, below) fits es e =
        let (p, first, e₁) =
          >>=-eq-ok (allocate_refs_at_path hash config anchors c m (path ++ (index ∷ []))) _ e in
        let (q, rest, e₂) =
          >>=-eq-ok (allocate_children hash config anchors cs p.1 path (index + 1)) _ e₁ in
        let here =
          allocate_refs_at_path-Walked config anchors c m (path ++ (index ∷ [])) p plain
            (Fits-first hash c cs path index anchors fits) es first in
        let there =
          allocate_children-Walked config anchors cs p.1 path (index + 1) q below
            (Fits-rest hash c cs path index anchors fits) here.entries rest in
        subst (λ (x : Nodes × RefMap). Walked hash m x.1 (ref_nodes_in x.0)) (ok-injective e₂)
          (rw
            (keep_child_refs config.options c p.0 q.0 (
              collapsed config anchors c m (path ++ (index ∷ [])) p q.0 plain
                (Fits-first hash c cs path index anchors fits) first))
            (follows hash m p.1 q.1 (ref_nodes p.0) (ref_nodes_in q.0) here there))

  abbrev start_anchors : RefAllocConfig → AccessibilityNode → List (List ℕ)
  start_anchors config tree =
      if is_none config.scope.root_ref_id then (plan_skeleton_anchors hash tree [] []).1 else []

  start_anchors-Fits :
      (config : RefAllocConfig) (tree : AccessibilityNode)
      → (config.scope.root_ref_id ≡ none → config.scope.path_prefix ≡ [])
      → Fits hash (start_anchors config tree) tree config.scope.path_prefix
  start_anchors-Fits config tree rooted = elim (Option-cases config.scope.root_ref_id) [
    | inl unset ↦ rw (unset, rooted unset) (plan_skeleton_anchors-Fits hash tree)
    | inr (id, set) ↦ rw set (λ below d i. absurd i)
  ]

  -- Let a tree without refs be allocate_refs_at_path-Walked from a map of valid entries, at the empty path unless there is
  -- a root ref, and let the walk succeed. The refs in the tree that results are, in document order,
  -- the keys of exactly the numbers that the walk has counted, so none is lost where nodes are
  -- pruned or collapsed; the map keeps its entries and stays one of valid entries; and each ref of
  -- the tree has an entry with the role, the name and the states of its node.
  pub allocate_refs_lem :
      (config : RefAllocConfig) (tree : AccessibilityNode) (m : RefMap)
      (r : AccessibilityNode × RefMap)
      → NoRefs tree
      → AllEntries hash m.counter m.inner
      → (config.scope.root_ref_id ≡ none → config.scope.path_prefix ≡ [])
      → allocate_refs hash config tree m ≡ ok r
      → Walked hash m r.1 (ref_nodes r.0)
  unfolding allocate_refs
  allocate_refs_lem config tree m r plain es rooted e =
      allocate_refs_at_path-Walked config (start_anchors config tree) tree m
        config.scope.path_prefix r plain (start_anchors-Fits config tree rooted) es e
