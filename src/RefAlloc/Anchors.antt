-- ===== src/RefAlloc/Anchors.antt =====
-- Skeleton anchors are planned only at nodes that can be found again.
use mathlib.Core.Option.{some-injective}
use agent_desktop.Prelude.{
  Bool, In, List, [], ap, append_assoc, arith, inl, inr, is_some, refl, some, suc, sym, true,
  ||-true, ℕ, ◌++◌, ◌+◌, ◌∙◌, ◌∷◌, ◌≡◌, ◌⊎◌, append-nil, subst,
}
use agent_desktop.Tree.{AccessibilityNode, NodeData, Nodes, cons, nil, node}
use agent_desktop.Tree.Paths.{child_at, data_at}
use agent_desktop.RefAlloc.{
  is_resolvable_skeleton_anchor, path_eq, path_in, plan_children, plan_skeleton_anchors, settle,
}
use agent_desktop.Geometry.{Rect}

path_eq→eq : (p q : List ℕ) → path_eq p q ≡ true → p ≡ q
unfolding path_eq
path_eq→eq [] [] h = refl
path_eq→eq [] (j ∷ q) h = cc
path_eq→eq (i ∷ p) [] h = cc
path_eq→eq (i ∷ p) (j ∷ q) h = ground (arith, path_eq→eq p q)

pub path_in→In : (ps : List (List ℕ)) (p : List ℕ) → path_in ps p ≡ true → In p ps
unfolding path_in
path_in→In [] p h = cc
path_in→In (q ∷ ps) p h = elim (||-true (path_eq q p) _ h) [
  | inl e ↦ inl (sym (path_eq→eq q p e))
  | inr r ↦ inr (path_in→In ps p r)
]

module _ (hash : Rect → ℕ) where
  -- A path that leads to a resolvable node below `path`.
  pub record Planned (n : AccessibilityNode) (path q : List ℕ) : Type 0 where
    pub below : List ℕ
    pub found : NodeData
    pub split : q ≡ path ++ below
    pub here : data_at n below ≡ some found
    pub resolvable : is_resolvable_skeleton_anchor hash found ≡ true

  pub record PlannedIn (cs : Nodes) (path : List ℕ) (index : ℕ) (q : List ℕ) : Type 0 where
    pub offset : ℕ
    pub below : List ℕ
    pub found : NodeData
    pub split : q ≡ path ++ ((index + offset) ∷ below)
    pub here : child_at cs offset below ≡ some found
    pub resolvable : is_resolvable_skeleton_anchor hash found ≡ true

  settle_cases :
      (d : NodeData) (path : List ℕ) (uncovered : Bool) (anchors : List (List ℕ))
      → ((settle hash d path (uncovered, anchors)).1 ≡ anchors)
        ⊎ (((settle hash d path (uncovered, anchors)).1 ≡ path ∷ anchors)
            × (is_resolvable_skeleton_anchor hash d ≡ true))
  unfolding settle
  settle_cases d path uncovered anchors = ground arith

  settle_sound :
      (d : NodeData) (cs : Nodes) (path q : List ℕ) (before : Bool × List (List ℕ))
      → In q (settle hash d path before).1
      → In q before.1 ⊎ Planned (node d cs) path q
  unfolding data_at
  settle_sound d cs path q (u, anchors) i = elim (settle_cases d path u anchors) [
    | inl e ↦ inl (subst (In q) e i)
    | inr (e, r) ↦ elim (subst (In q) e i) [
      | inl here ↦ inr (record {
        below = [];
        found = d;
        split = here ∙ sym (append-nil path);
        here = refl;
        resolvable = r;
      })
      | inr old ↦ inl old
    ]
  ]

  shift :
      (c : AccessibilityNode) (cs : Nodes) (path : List ℕ) (index : ℕ) (q : List ℕ)
      → PlannedIn cs path (index + 1) q
      → PlannedIn (cons c cs) path index q
  unfolding child_at
  shift c cs path index q p = record {
    offset = suc p.offset;
    below = p.below;
    found = p.found;
    split = p.split ∙ ap (λ (i : ℕ). path ++ (i ∷ p.below)) (omega arith);
    here = p.here;
    resolvable = p.resolvable;
  }

  first :
      (c : AccessibilityNode) (cs : Nodes) (path : List ℕ) (index : ℕ) (q : List ℕ)
      → Planned c (path ++ (index ∷ [])) q
      → PlannedIn (cons c cs) path index q
  unfolding child_at
  first c cs path index q p = record {
    offset = 0;
    below = p.below;
    found = p.found;
    split =
        p.split
        ∙ append_assoc path (index ∷ []) p.below
        ∙ ap (λ (i : ℕ). path ++ (i ∷ p.below)) (omega arith);
    here = p.here;
    resolvable = p.resolvable;
  }

  lift :
      (d : NodeData) (cs : Nodes) (path q : List ℕ)
      → PlannedIn cs path 0 q
      → Planned (node d cs) path q
  unfolding data_at
  lift d cs path q p = record {
    below = p.offset ∷ p.below;
    found = p.found;
    split = p.split ∙ ap (λ (i : ℕ). path ++ (i ∷ p.below)) (omega arith);
    here = p.here;
    resolvable = p.resolvable;
  }

  mutual
    unfolding plan_skeleton_anchors

    plan_sound :
        (n : AccessibilityNode) (path q : List ℕ) (anchors : List (List ℕ))
        → In q (plan_skeleton_anchors hash n path anchors).1
        → In q anchors ⊎ Planned n path q
    plan_sound (node d cs) path q anchors i =
        elim (settle_sound d cs path q
          (plan_children hash cs path 0 (is_some d.children_count) anchors) i) [
            | inl before ↦
                elim (plan_children_sound cs path q 0 (is_some d.children_count) anchors before) [
                  | inl old ↦ inl old
                  | inr p ↦ inr (lift d cs path q p)
                ]
            | inr p ↦ inr p
          ]

    plan_children_sound :
        (cs : Nodes) (path q : List ℕ) (index : ℕ) (uncovered : Bool) (anchors : List (List ℕ))
        → In q (plan_children hash cs path index uncovered anchors).1
        → In q anchors ⊎ PlannedIn cs path index q
    plan_children_sound nil path q index uncovered anchors i = inl i
    plan_children_sound (cons c cs) path q index uncovered anchors i =
        elim (plan_children_sound cs path q (index + 1) _ _ i) [
          | inl before ↦ elim (plan_sound c (path ++ (index ∷ [])) q anchors before) [
            | inl old ↦ inl old
            | inr p ↦ inr (first c cs path index q p)
          ]
          | inr p ↦ inr (shift c cs path index q p)
        ]

  -- The anchors of a walk fit its tree: a path among them leads to a resolvable node.
  abbrev pub Fits : List (List ℕ) → AccessibilityNode → List ℕ → Type 0
  Fits anchors n path =
      (below : List ℕ) (d : NodeData)
      → In (path ++ below) anchors
      → data_at n below ≡ some d
      → is_resolvable_skeleton_anchor hash d ≡ true

  abbrev pub FitsIn : List (List ℕ) → Nodes → List ℕ → ℕ → Type 0
  FitsIn anchors cs path index =
      (offset : ℕ) (below : List ℕ) (d : NodeData)
      → In (path ++ ((index + offset) ∷ below)) anchors
      → child_at cs offset below ≡ some d
      → is_resolvable_skeleton_anchor hash d ≡ true

  -- The anchors planned for a tree fit it.
  pub plan_skeleton_anchors-Fits :
      (n : AccessibilityNode) → Fits (plan_skeleton_anchors hash n [] []).1 n []
  plan_skeleton_anchors-Fits n below d i e = elim (plan_sound n [] below [] i) [
    | inl none_before ↦ absurd none_before
    | inr p ↦
        let same : data_at n below ≡ some p.found = rw p.split p.here in
        subst (λ x. is_resolvable_skeleton_anchor hash x ≡ true)
          (some-injective p.found d (sym same ∙ e)) p.resolvable
  ]

  -- Fitting anchors fit the parts of the tree.
  pub Fits-below :
      (d : NodeData) (cs : Nodes) (path : List ℕ) (anchors : List (List ℕ))
      → Fits anchors (node d cs) path
      → FitsIn anchors cs path 0
  unfolding data_at
  Fits-below d cs path anchors fits offset below x i e =
      let zero_offset : 0 + offset ≡ offset = omega arith in
      fits (offset ∷ below) x (subst (λ (k : ℕ). In (path ++ (k ∷ below)) anchors) zero_offset i) e

  pub Fits-first :
      (c : AccessibilityNode) (cs : Nodes) (path : List ℕ) (index : ℕ) (anchors : List (List ℕ))
      → FitsIn anchors (cons c cs) path index
      → Fits anchors c (path ++ (index ∷ []))
  unfolding child_at
  Fits-first c cs path index anchors fits below x i e =
      let no_offset : index ≡ index + 0 = omega arith in
      fits 0 below x
        (subst (λ (k : ℕ). In (path ++ (k ∷ below)) anchors) no_offset
          (subst (λ p. In p anchors) (append_assoc path (index ∷ []) below) i))
        e

  pub Fits-rest :
      (c : AccessibilityNode) (cs : Nodes) (path : List ℕ) (index : ℕ) (anchors : List (List ℕ))
      → FitsIn anchors (cons c cs) path index
      → FitsIn anchors cs path (index + 1)
  unfolding child_at
  Fits-rest c cs path index anchors fits offset below x i e =
      let next : index + 1 + offset ≡ index + suc offset = omega arith in
      fits (suc offset) below x (subst (λ (k : ℕ). In (path ++ (k ∷ below)) anchors) next i) e
