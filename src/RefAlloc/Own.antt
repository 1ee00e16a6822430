-- ===== src/RefAlloc/Own.antt =====
-- `allocate_own`: the ref of the node itself.
use agent_desktop.Prelude.{
  >>=-eq-ok, Bool, Bool-cases, In, List, Result, [], append-nil, false, if◌then◌else◌, inl, inr,
  none, ok, ok-injective, refl, subst, sym, true, ℕ, ◌≡◌,
}
use agent_desktop.Error.{AppError}
use agent_desktop.RefMap.{RefMap}
use agent_desktop.RefMap.Allocation.{AllEntries}
use agent_desktop.Tree.{NodeData, Nodes, node, own_ref}
use agent_desktop.Tree.Paths.{data_at}
use agent_desktop.RefAlloc.{
  RefAllocConfig, allocate_own, allocate_with, anchor_entry, is_collapsible, is_ref_able,
  is_resolvable_skeleton_anchor, path_in, primary_entry, strip_bounds,
}
use agent_desktop.RefAlloc.Collapsible.{collapsible_not_anchor, collapsible_not_ref_able}
use agent_desktop.RefAlloc.Anchors.{Fits, path_in→In}
use agent_desktop.RefAlloc.Steps.{
  Walked, allocate_with-Walked, anchor_made, own_tag, primary_made, stays,
}
use agent_desktop.Geometry.{Rect}

module _ (hash : Rect → ℕ) where
  abbrev own_choice :
      RefAllocConfig
      → List (List ℕ)
      → NodeData
      → RefMap
      → List ℕ
      → Result AppError (NodeData × RefMap)
  own_choice config anchors d m path =
      if is_ref_able d
      then allocate_with hash d (primary_entry hash config d path) m
      else if path_in anchors path
      then allocate_with hash d (anchor_entry hash config d path) m
      else ok (d, m)

  own_choice-Walked :
      (config : RefAllocConfig) (anchors : List (List ℕ)) (d : NodeData) (m : RefMap)
      (path : List ℕ) (r : NodeData × RefMap)
      → d.ref_id ≡ none
      → AllEntries hash m.counter m.inner
      → own_choice config anchors d m path ≡ ok r
      → Walked hash m r.1 (own_tag hash config.options.include_bounds r.0)
  own_choice-Walked config anchors d m path r plain es e = elim (Bool-cases (is_ref_able d)) [
    | inl y ↦
        allocate_with-Walked hash config.options.include_bounds d (primary_entry hash config d path)
          m r es (primary_made hash config d path) (rw y at e)
    | inr n ↦ elim (Bool-cases (path_in anchors path)) [
      | inl y ↦
          allocate_with-Walked hash config.options.include_bounds d
            (anchor_entry hash config d path) m r es (anchor_made hash config d path)
            (rw (n, y) at e)
      | inr k ↦
          subst (λ x. Walked hash m x.1 (own_tag hash config.options.include_bounds x.0))
            (ok-injective (rw (n, k) at e)) (untagged config.options.include_bounds)
    ]
  ]
    where
      untagged : (b : Bool) → Walked hash m m (own_tag hash b d)
      untagged true = rw plain (stays hash m es)
      untagged false = rw plain (stays hash m es)

  -- The node itself: its own ref, if it gets one, is the next one.
  pub allocate_own-Walked :
      (config : RefAllocConfig) (anchors : List (List ℕ)) (d : NodeData) (m : RefMap)
      (path : List ℕ) (r : NodeData × RefMap)
      → d.ref_id ≡ none
      → AllEntries hash m.counter m.inner
      → allocate_own hash config anchors d m path ≡ ok r
      → Walked hash m r.1 (own_ref r.0.ref_id r.0)
  unfolding allocate_own
  allocate_own-Walked config anchors d m path r plain es e =
      let (p, done, f) = >>=-eq-ok (own_choice config anchors d m path) _ e in
      subst (λ x. Walked hash m x.1 (own_ref x.0.ref_id x.0)) (ok-injective f)
        (own_choice-Walked config anchors d m path p plain es done)

  -- A collapsible node gets no ref.
  pub own_plain :
      (config : RefAllocConfig) (anchors : List (List ℕ)) (d : NodeData) (cs : Nodes) (m : RefMap)
      (path : List ℕ) (r : NodeData × RefMap)
      → d.ref_id ≡ none
      → is_collapsible (node d cs) ≡ true
      → Fits hash anchors (node d cs) path
      → allocate_own hash config anchors d m path ≡ ok r
      → r.0.ref_id ≡ none
  unfolding allocate_own
  own_plain config anchors d cs m path r plain c fits e =
      let (p, done, f) = >>=-eq-ok (own_choice config anchors d m path) _ e in
      let q : ◌≡◌ {A = NodeData × RefMap} (d, m) p =
        ok-injective (rw (collapsible_not_ref_able hash d cs c, no_anchor) at done) in
      subst (λ x. x.0.ref_id ≡ none) (ok-injective f)
        (subst
          (λ (x : NodeData × RefMap).
            (strip_bounds config.options.include_bounds x.0).ref_id ≡ none)
          q (stripped config.options.include_bounds))
    where
      stripped : (b : Bool) → (strip_bounds b d).ref_id ≡ none
      stripped true = plain
      stripped false = plain

      no_anchor : path_in anchors path ≡ false
      no_anchor = elim (Bool-cases (path_in anchors path)) [
        | inl y ↦
            let at_node : is_resolvable_skeleton_anchor hash d ≡ true =
              fits [] d
                (subst (λ p. In p anchors) (sym (append-nil path)) (path_in→In anchors path y))
                (unfold data_at in refl) in
            cc (at_node, collapsible_not_anchor hash d cs c)
        | inr n ↦ n
      ]
