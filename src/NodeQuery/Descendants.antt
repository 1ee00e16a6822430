-- ===== src/NodeQuery/Descendants.antt =====
-- crates/core/src/locator.rs: node_matches by the descendants of a node, without recursion on the
-- tree.
use agent_desktop.Prelude.{
  Bool, List, Option, [], any, arith, false, not, refl, true, none, some, ℕ, ◌&&◌, ◌++◌, ◌||◌, ◌∷◌,
  ◌≡◌, ◌∙◌,
}
use agent_desktop.NodeQuery.{
  NestedQuery, TreeQuery, clause, has_text_matches, identity_matches, nested, no_nested, no_query,
  node_matches, own_text_matches, some_child_has_text, state_predicates_match, subtree_contains,
  subtree_has_text,
}
use agent_desktop.Text.{Text}
use agent_desktop.Tree.{AccessibilityNode, Nodes, cons, nil, node, node_data, children, NodeData}

-- All nodes below a list of children, in document order.
abbrev pub descendants : Nodes → List AccessibilityNode
descendants nil = []
descendants (cons (node d kids) cs) = node d kids ∷ (descendants kids ++ descendants cs)

pub any-append :
    {A : Type 0} (p : A → Bool) (xs ys : List A) → any p (xs ++ ys) ≡ (any p xs || any p ys)
any-append p [] ys = refl
any-append p (x ∷ xs) ys = ground (arith, any-append p xs ys)

pub any-agree :
    {A : Type 0} (p q : A → Bool) → ((a : A) → p a ≡ q a) → (xs : List A) → any p xs ≡ any q xs
any-agree p q same [] = refl
any-agree p q same (x ∷ xs) = ground (arith, same x, any-agree p q same xs)

module _ (lower : ℕ → Text) where
  abbrev pub has_own_text : Text → Bool → AccessibilityNode → Bool
  has_own_text expected exact n = own_text_matches lower expected exact (node_data n)

  some_child_has_text-descendants :
      (expected : Text) (exact : Bool) (cs : Nodes)
      → some_child_has_text lower expected exact cs
        ≡ any (has_own_text expected exact) (descendants cs)
  unfolding subtree_has_text
  some_child_has_text-descendants expected exact nil = refl
  some_child_has_text-descendants expected exact (cons (node d kids) cs) = ground (
    arith,
    some_child_has_text-descendants expected exact kids,
    some_child_has_text-descendants expected exact cs,
    any-append (has_own_text expected exact) (descendants kids) (descendants cs),
  )

  pub subtree_contains-descendants :
      (query : TreeQuery) (cs : Nodes)
      → subtree_contains lower (nested query) cs ≡ any (node_matches lower query) (descendants cs)
  unfolding subtree_contains
  subtree_contains-descendants query nil = refl
  subtree_contains-descendants query (cons (node d kids) cs) = ground (
    arith,
    subtree_contains-descendants query kids,
    subtree_contains-descendants query cs,
    any-append (node_matches lower query) (descendants kids) (descendants cs),
  )

  -- The node or one below it has the text.
  abbrev pub text_found : Option Text → Bool → AccessibilityNode → Bool
  text_found none exact n = true
  text_found (some expected) exact n =
      any (has_own_text expected exact) (n ∷ descendants (children n))

  -- What a query asks of a node, by recursion on the query alone.
  unfoldable mutual
    pub matches : TreeQuery → AccessibilityNode → Bool
    matches (clause query has has_not) n =
        identity_matches lower query (node_data n)
        && text_found query.has_text query.exact n
        && state_predicates_match query.states (node_data n).presentation.states
        && (no_nested has || some_below_matches has n)
        && not (some_below_matches has_not n)

    pub some_below_matches : NestedQuery → AccessibilityNode → Bool
    some_below_matches no_query n = false
    some_below_matches (nested query) n = any (matches query) (descendants (children n))

  has_text_matches-text_found :
      (expected : Option Text) (exact : Bool) (n : AccessibilityNode)
      → has_text_matches lower expected exact n ≡ text_found expected exact n
  unfolding has_text_matches subtree_has_text
  has_text_matches-text_found none exact n = refl
  has_text_matches-text_found (some expected) exact (node d kids) =
      ground (arith, some_child_has_text-descendants expected exact kids)

  -- A query that agrees on every node agrees on what a list of children contains.
  subtree_contains-agree :
      (query : TreeQuery)
      → ((n : AccessibilityNode) → node_matches lower query n ≡ matches query n)
      → (d : NodeData) (kids : Nodes)
      → subtree_contains lower (nested query) kids ≡ some_below_matches (nested query) (node d kids)
  unfolding matches
  subtree_contains-agree query same d kids =
      subtree_contains-descendants query kids
      ∙ any-agree (node_matches lower query) (matches query) same (descendants kids)

  -- For every query and every node: `node_matches` is true exactly if the node passes the query's own
  -- tests, it or a descendant has the text `has_text`, some descendant matches `has`, and none
  -- matches `has_not`, where the nested queries are read in the same way.
  pub node_matches-matches :
      (query : TreeQuery) (n : AccessibilityNode) → node_matches lower query n ≡ matches query n
  unfolding node_matches matches
  node_matches-matches (clause query no_query no_query) (node d kids) =
      ground (arith, has_text_matches-text_found query.has_text query.exact (node d kids))
  node_matches-matches (clause query (nested has) no_query) (node d kids) = ground (
    arith,
    has_text_matches-text_found query.has_text query.exact (node d kids),
    subtree_contains-agree has (node_matches-matches has) d kids,
  )
  node_matches-matches (clause query no_query (nested has_not)) (node d kids) = ground (
    arith,
    has_text_matches-text_found query.has_text query.exact (node d kids),
    subtree_contains-agree has_not (node_matches-matches has_not) d kids,
  )
  node_matches-matches (clause query (nested has) (nested has_not)) (node d kids) = ground (
    arith,
    has_text_matches-text_found query.has_text query.exact (node d kids),
    subtree_contains-agree has (node_matches-matches has) d kids,
    subtree_contains-agree has_not (node_matches-matches has_not) d kids,
  )
