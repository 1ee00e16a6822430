-- ===== src/RefAlloc/Transform.antt =====
-- `transform_tree`: what is left of a tree.
use agent_desktop.Prelude.{Bool, false, if◌then◌else◌, none, refl, true, ◌&&◌, ◌≡◌}
use agent_desktop.Tree.{AccessibilityNode, Nodes, children, cons, nil, node, promote_first}
use agent_desktop.RefAlloc.{
  RefAllocOptions, is_bare_leaf, is_collapsible, transform_children, transform_tree,
}

-- No node of the tree has bounds.
abbrev mutual
  pub NoBounds : AccessibilityNode → Type 0
  NoBounds (node d cs) = (d.presentation.bounds ≡ none) × NoBoundsIn cs

  pub NoBoundsIn : Nodes → Type 0
  NoBoundsIn nil = Unit {0}
  NoBoundsIn (cons c cs) = NoBounds c × NoBoundsIn cs

promote_first-NoBoundsIn :
    (cs rest : Nodes) → NoBoundsIn cs → NoBoundsIn rest → NoBoundsIn (promote_first cs rest)
promote_first-NoBoundsIn nil rest h k = k
promote_first-NoBoundsIn (cons c cs) rest h k = (h.0, k)

children-NoBoundsIn : (n : AccessibilityNode) → NoBounds n → NoBoundsIn (children n)
children-NoBoundsIn (node d cs) h = h.1

either_NoBoundsIn :
    (b : Bool) (xs ys : Nodes) → NoBoundsIn xs → NoBoundsIn ys → NoBoundsIn (if b then xs else ys)
either_NoBoundsIn true xs ys h k = h
either_NoBoundsIn false xs ys h k = k

mutual
  unfolding transform_tree

  transform_tree-NoBounds :
      (o : RefAllocOptions) (n : AccessibilityNode)
      → o.include_bounds ≡ false
      → NoBounds (transform_tree o n)
  transform_tree-NoBounds o (node d cs) b = (rw b refl, transform_children-NoBoundsIn o cs b)

  transform_children-NoBoundsIn :
      (o : RefAllocOptions) (cs : Nodes)
      → o.include_bounds ≡ false
      → NoBoundsIn (transform_children o cs)
  transform_children-NoBoundsIn o nil b = tt
  transform_children-NoBoundsIn o (cons c cs) b =
      let here = transform_tree-NoBounds o c b in
      let rest = transform_children-NoBoundsIn o cs b in
      either_NoBoundsIn (o.compact && is_collapsible c) _ _
        (promote_first-NoBoundsIn _ _ (children-NoBoundsIn _ here) rest)
        (either_NoBoundsIn (o.interactive_only && is_bare_leaf (transform_tree o c)) _ _ rest
          (here, rest))

-- Where bounds are not to be included, no node of the tree that `transform_tree` leaves has any, also
-- where wrappers were collapsed.
pub transform_tree_without_bounds :
    (o : RefAllocOptions) (n : AccessibilityNode)
    → o.include_bounds ≡ false
    → NoBounds (transform_tree o n)
transform_tree_without_bounds o n b = transform_tree-NoBounds o n b
