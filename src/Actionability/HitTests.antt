-- ===== src/Actionability/HitTests.antt =====
-- The hit tests of crates/core/src/actionability/receives_events.rs in the whole evaluation.
use agent_desktop.Actionability.Probes.{Reached, none_intercepted, probe_lem}
use agent_desktop.Text.{Text}
use agent_desktop.Geometry.{Rect}
use agent_desktop.Error.{delivery}
use agent_desktop.Action.{Point, ActionRequest, Action, requires_hit_test}
use agent_desktop.Actionability.Accepted.{accepted}
use agent_desktop.Actionability.Gates.{Arithmetic}
use agent_desktop.Actionability.{
  StabilityExpectation, ActionabilityEvidence, is_physical, ActionabilityCheck, PointerDelivery,
  pointer_delivery_of, requirements_for,
}
use agent_desktop.Policy.{InteractionPolicy}
use agent_desktop.Prelude.{
  List, Option, [], arith, false, none, ok, some, true, ℕ, ◌∷◌, ◌≡◌, ◌⊎◌, ap, inl, inr,
  ok-injective, sym, >>=-eq-ok, ◌∙◌, &&-true, not,
}
use agent_desktop.Actionability.Check.{
  HitTest, is_blocking, probe, ActionabilityReport, candidate_points, check_with_stability,
  hit_checks, no_probes, receives_events_check,
}

physical_is_hit_tested :
    (action : Action) (available_actions : List Text) (policy : InteractionPolicy)
    → is_physical (pointer_delivery_of (requirements_for action) action available_actions policy)
      ≡ true
    → requires_hit_test action ≡ true
unfolding pointer_delivery_of requirements_for requires_hit_test
physical_is_hit_tested action available_actions policy h = ground arith

module _ (hash : Rect → ℕ) (arithmetic : Arithmetic) where
  hit_checks_inv :
      (evidence : ActionabilityEvidence) (request : ActionRequest) (hit_test : HitTest)
      (bounds : Rect) (delivery : PointerDelivery) (hit : List ActionabilityCheck)
      (point : Option Point)
      → evidence.bounds ≡ some bounds
      → is_physical delivery ≡ true
      → requires_hit_test request.action ≡ true
      → hit_checks hash arithmetic evidence request (some hit_test) delivery ≡ ok (hit, point)
      → (c : ActionabilityCheck) × (probe hit_test 0
            (candidate_points hash arithmetic bounds)
            no_probes
          ≡ ok (c, point))
        × (hit ≡ c ∷ [])
  unfolding hit_checks receives_events_check
  hit_checks_inv evidence request hit_test bounds delivery hit point b d h e =
      let (p, done, f) =
        >>=-eq-ok (receives_events_check hash arithmetic evidence.bounds hit_test request) _
          (rw d at e) in
      let same = ok-injective f in
      let reached : probe hit_test 0 (candidate_points hash arithmetic bounds) no_probes ≡ ok p =
        rw (b, h) at done in
      (
        p.0,
        reached
            ∙ ap (λ (q : Option Point). ok (p.0, q))
                (ap (λ (x : List ActionabilityCheck × Option Point). x.1) same),
        sym (ap (λ (x : List ActionabilityCheck × Option Point). x.0) same),
      )

  -- A request that is accepted for physical delivery, on a target with bounds and with hit tests at
  -- hand, either has a verified point, one of the five candidate points, at which a hit test
  -- reached the target, or it has none, and then no hit test was intercepted before the points ran
  -- out or a test failed.
  pub accepted_hit :
      (x : StabilityExpectation) (evidence : ActionabilityEvidence) (request : ActionRequest)
      (hit_test : HitTest) (bounds : Rect) (r : ActionabilityReport)
      → check_with_stability hash arithmetic x evidence request (some hit_test) ≡ ok r
      → evidence.bounds ≡ some bounds
      → is_physical r.pointer_delivery ≡ true
      → Reached hit_test (candidate_points hash arithmetic bounds) r.verified_point
        ⊎ ((r.verified_point ≡ none)
            × (none_intercepted hit_test 0 (candidate_points hash arithmetic bounds) ≡ true))
  unfolding candidate_points
  accepted_hit x evidence request hit_test bounds r e has_bounds phys =
      let a = accepted hash arithmetic x evidence request (some hit_test) r e in
      let (c, probed, only) =
        hit_checks_inv evidence request hit_test bounds r.pointer_delivery a.hit r.verified_point
          has_bounds phys
          (physical_is_hit_tested request.action evidence.available_actions request.policy
            (ap is_physical (sym a.delivered_by) ∙ phys))
          a.hit_tested in
      let clear : not (is_blocking c) ≡ true =
        (&&-true (not (is_blocking c)) _ (rw only at a.none_blocks)).0 in
      let unblocked : is_blocking c ≡ false = ground arith in
      elim (probe_lem hit_test 0 (candidate_points hash arithmetic bounds) no_probes
        (c, r.verified_point) tt (omega arith) probed unblocked) [
          | inl found ↦ inl found
          | inr (v, z, n) ↦ inr (v, n)
        ]
