-- ===== src/RefAlloc/Collapsible.antt =====
-- `is_collapsible` nodes: neither ref-able nor anchors, and with one child.
use agent_desktop.Text.{Text, text_eq, text_in}
use agent_desktop.Text.Laws.{text_eq→eq}
use agent_desktop.Role.{from_token, is_transparent_wrapper}
use agent_desktop.Roles.{interactive_roles}
use agent_desktop.Prelude.{
  Bool, List, [], arith, inl, inr, refl, some, true, ||-true, ℕ, ◌∷◌, ◌≡◌, &&-true, Bool-cases, all,
  false, not, subst, Option, is_empty, is_none, none,
}
use agent_desktop.Tree.{NodeData, Nodes, node, is_singleton}
use agent_desktop.RefAlloc.{
  is_resolvable_skeleton_anchor, is_collapsible, is_ref_able, advertises_primary_action,
  has_meaningful_text, is_blank_option,
}
use agent_desktop.Geometry.{Rect}

module _ (hash : Rect → ℕ) where
  -- A collapsible node gets no ref of its own: it is neither ref-able nor an anchor.
  collapsible_group :
      (d : NodeData) (cs : Nodes)
      → is_collapsible (node d cs) ≡ true
      → is_transparent_wrapper (from_token d.role) ≡ true
  unfolding is_collapsible
  collapsible_group d cs h = (&&-true (is_transparent_wrapper (from_token d.role)) _ h).0

  text_in-all :
      (ts : List Text) (p : Text → Bool) (t : Text)
      → all p ts ≡ true
      → text_in ts t ≡ true
      → p t ≡ true
  unfolding text_in
  text_in-all [] p t h i = cc
  text_in-all (u ∷ ts) p t h i = elim (||-true (text_eq u t) _ i) [
    | inl e ↦ subst (λ x. p x ≡ true) (text_eq→eq u t e) (&&-true (p u) _ h).0
    | inr r ↦ text_in-all ts p t (&&-true (p u) _ h).1 r
  ]

  group_not_interactive :
      (t : Text)
      → is_transparent_wrapper (from_token t) ≡ true
      → text_in interactive_roles t ≡ false
  group_not_interactive t g = elim (Bool-cases (text_in interactive_roles t)) [
    | inl y ↦
        let n =
          text_in-all interactive_roles (λ u. not (is_transparent_wrapper (from_token u))) t
            (unfold is_transparent_wrapper from_token in refl) y in
        ground arith
    | inr n ↦ n
  ]

  collapsible_parts :
      (d : NodeData) (cs : Nodes)
      → is_collapsible (node d cs) ≡ true
      → (is_blank_option d.identity.name ≡ true)
        × (is_blank_option d.identity.description ≡ true)
        × (is_none d.identity.native_id ≡ true)
        × (is_empty d.presentation.available_actions ≡ true)
        × (is_none d.presentation.bounds ≡ true)
        × (is_singleton cs ≡ true)
  unfolding is_collapsible
  collapsible_parts d cs h = ground arith

  no_primary_action :
      (actions : List Text) → is_empty actions ≡ true → advertises_primary_action actions ≡ false
  unfolding advertises_primary_action
  no_primary_action [] h = refl
  no_primary_action (a ∷ rest) h = cc

  blank_not_meaningful :
      (o : Option Text) → is_blank_option o ≡ true → has_meaningful_text o ≡ false
  unfolding has_meaningful_text
  blank_not_meaningful none h = refl
  blank_not_meaningful (some t) h = rw h refl

  pub collapsible_not_ref_able :
      (d : NodeData) (cs : Nodes) → is_collapsible (node d cs) ≡ true → is_ref_able d ≡ false
  unfolding is_ref_able
  collapsible_not_ref_able d cs h =
      rw (group_not_interactive d.role (collapsible_group d cs h))
        (no_primary_action d.presentation.available_actions (collapsible_parts d cs h).3)

  pub collapsible_not_anchor :
      (d : NodeData) (cs : Nodes)
      → is_collapsible (node d cs) ≡ true
      → is_resolvable_skeleton_anchor hash d ≡ false
  unfolding is_resolvable_skeleton_anchor
  collapsible_not_anchor d cs h =
      let parts = collapsible_parts d cs h in
      rw
        (
          blank_not_meaningful d.identity.name parts.0,
          blank_not_meaningful d.identity.description parts.1,
        )
        (ground (arith, parts.2, parts.4))

  pub collapsible_single :
      (d : NodeData) (cs : Nodes) → is_collapsible (node d cs) ≡ true → is_singleton cs ≡ true
  collapsible_single d cs h = (collapsible_parts d cs h).5
