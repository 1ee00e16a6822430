-- ===== src/Actionability/Accepted.antt =====
-- What an accepted request has shown: every check before the hit test passed.
use agent_desktop.Actionability.GateNames.{all-later, all_pass, gate_checks-are_gates}
use agent_desktop.Action.{ActionRequest}
use agent_desktop.Error.{
  AdapterError, DeliverySemantics, action_failed, new, with_disposition, with_suggestion,
}
use agent_desktop.Prelude.{
  Bool, List, Option, all, any, false, if◌then◌else◌, inl, inr, not, refl, true, unwrap_or, ◌≡◌, ℕ,
  Bool-cases, Result, err, ok, ok-injective, subst, >>=-eq-ok,
}
use agent_desktop.Actionability.{
  ActionabilityCheck, ActionabilityEvidence, PointerDelivery, StabilityExpectation,
  pointer_delivery_of, requirements_for,
}
use agent_desktop.Actionability.Gates.{Arithmetic}
use agent_desktop.Actionability.Check.{
  is_blocking, is_pass, gate_checks, ActionabilityReport, HitTest, check_with_stability, finish,
  from_checks, hit_checks, suggestion_for, terminal_code,
}
use agent_desktop.Geometry.{Rect}

module _ (hash : Rect → ℕ) (arithmetic : Arithmetic) where
  -- What `check_with_stability` has seen when it accepts.
  pub record Accepted (x : StabilityExpectation) (evidence : ActionabilityEvidence)
      (request : ActionRequest) (hit_test : Option HitTest) (r : ActionabilityReport) : Type 0 where
    pub hit : List ActionabilityCheck
    pub gates_passed :
        any
          (λ c. not (is_pass c.status))
          (gate_checks hash arithmetic x evidence request r.pointer_delivery)
        ≡ false
    pub delivered_by :
        r.pointer_delivery
        ≡ pointer_delivery_of
            (requirements_for request.action)
            request.action
            evidence.available_actions
            request.policy
    pub hit_tested :
        hit_checks hash arithmetic evidence request hit_test r.pointer_delivery
        ≡ ok (hit, r.verified_point)
    pub none_blocks : all (λ c. not (is_blocking c)) hit ≡ true

  finish_inv :
      (evidence : ActionabilityEvidence) (report r : ActionabilityReport)
      → finish evidence report ≡ ok r
      → (report.actionable ≡ true) × (report ≡ r)
  unfolding finish
  finish_inv evidence report r e = elim (Bool-cases report.actionable) [
    | inl y ↦ (y, ok-injective (subst (λ b. finish_on b ≡ ok r) y e))
    | inr n ↦ cc (subst (λ b. finish_on b ≡ ok r) n e)
  ]
    where
      finish_on : Bool → Result AdapterError ActionabilityReport
      finish_on b =
          if b
          then ok report
          else err (
              with_disposition DeliverySemantics.not_delivered (
                with_suggestion
                  (suggestion_for evidence report (unwrap_or (terminal_code report) action_failed))
                  (new (unwrap_or (terminal_code report) action_failed)
                    "Target is not actionable: {}")))

  pub accepted :
      (x : StabilityExpectation) (evidence : ActionabilityEvidence) (request : ActionRequest)
      (hit_test : Option HitTest) (r : ActionabilityReport)
      → check_with_stability hash arithmetic x evidence request hit_test ≡ ok r
      → Accepted x evidence request hit_test r
  unfolding check_with_stability from_checks
  accepted x evidence request hit_test r e =
      elim (Bool-cases (any (λ c. not (is_pass c.status)) checks)) [
        | inl bad ↦
            let (act, same) = finish_inv evidence _ r (rw bad at e) in
            let fine =
              all_pass checks (gate_checks-are_gates hash arithmetic x evidence request delivery)
                act in
            cc (bad, fine)
        | inr good ↦
            let (p, done, f) =
              >>=-eq-ok (hit_checks hash arithmetic evidence request hit_test delivery) _
                (rw good at e) in
            let (act, same) = finish_inv evidence _ r f in
            subst (Accepted x evidence request hit_test) same (record {
              hit = p.0;
              gates_passed = good;
              delivered_by = refl;
              hit_tested = done;
              none_blocks = all-later (λ c. not (is_blocking c)) checks p.0 act;
            })
      ]
    where
      delivery : PointerDelivery
      delivery =
          pointer_delivery_of (requirements_for request.action) request.action
            evidence.available_actions request.policy

      checks : List ActionabilityCheck
      checks = gate_checks hash arithmetic x evidence request delivery
