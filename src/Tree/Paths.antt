-- ===== src/Tree/Paths.antt =====
-- Nodes of a tree by their paths, and trees that carry no ref yet.
use agent_desktop.Prelude.{List, Option, [], none, some, suc, zero, ℕ, ◌∷◌, ◌≡◌}
use agent_desktop.Tree.{AccessibilityNode, NodeData, Nodes, cons, nil, node}

-- The data of the node at a path of child indices.
unfoldable mutual
  pub data_at : AccessibilityNode → List ℕ → Option NodeData
  data_at (node d cs) [] = some d
  data_at (node d cs) (i ∷ p) = child_at cs i p

  pub child_at : Nodes → ℕ → List ℕ → Option NodeData
  child_at nil i p = none
  child_at (cons c cs) zero p = data_at c p
  child_at (cons c cs) (suc i) p = child_at cs i p

-- No node carries a ref, as in the trees that the adapters hand over.
abbrev mutual
  pub NoRefs : AccessibilityNode → Type 0
  NoRefs (node d cs) = (d.ref_id ≡ none) × NoRefsIn cs

  pub NoRefsIn : Nodes → Type 0
  NoRefsIn nil = Unit {0}
  NoRefsIn (cons c cs) = NoRefs c × NoRefsIn cs
