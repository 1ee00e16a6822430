-- ===== src/Actionability/Safety.antt =====
-- What an accepted request is known to satisfy.
use agent_desktop.Text.{Text, codes, text_eq}
use agent_desktop.Geometry.{Rect}
use agent_desktop.Actionability.Accepted.{accepted}
use agent_desktop.Prelude.{
  ◌||◌, not, Bool, arith, false, some, true, ◌≡◌, List, Option, any, ap, none, ok, ℕ, ◌∙◌, ◌⊎◌,
}
use agent_desktop.Policy.{is_headed}
use agent_desktop.Action.{ActionRequest, requires_cursor_policy, Action, writes_element_value}
use agent_desktop.Capability.{
  bounds_are_visible, supports_direct_semantic_pointer_delivery, contains, has_state,
}
use agent_desktop.Actionability.{
  ActionabilityCheck, ActionabilityEvidence, is_physical, pointer_delivery_of, requirements_for,
  PointerDelivery, StabilityExpectation, requires_geometry, requires_stability,
}
use agent_desktop.Actionability.Gates.{
  action_supported, enabled, policy_check, visibility, visibility_bounds, visibility_state,
  Arithmetic, editable, stability_check,
}
use agent_desktop.Actionability.Check.{
  is_pass, ActionabilityReport, HitTest, check_with_stability, gate_checks, push_if,
}

abbrev not_passed : ActionabilityCheck → Bool
not_passed c = not (is_pass c.status)

supported_not_physical :
    (evidence : ActionabilityEvidence) (request : ActionRequest)
    → not_passed (action_supported evidence request) ≡ false
    → not_passed (policy_check request) ≡ false
    → request.policy.allow_cursor_move ≡ false
    → is_physical (
        pointer_delivery_of
          (requirements_for request.action)
          request.action
          evidence.available_actions
          request.policy)
      ≡ false
unfolding action_supported policy_check pointer_delivery_of requirements_for is_headed
    requires_cursor_policy supports_direct_semantic_pointer_delivery
supported_not_physical evidence request s p n = ground arith

enabled_passed :
    (evidence : ActionabilityEvidence)
    → not_passed (enabled evidence) ≡ false
    → evidence.state.enabled ≡ some true
unfolding enabled
enabled_passed evidence h = ground arith

-- A state of the target is known to be absent: read as absent, or not among all of its states.
abbrev pub KnownAbsent : Option Bool → ActionabilityEvidence → Text → Type 0
KnownAbsent live evidence token =
    (live ≡ some false)
    ⊎ ((live ≡ none)
        × (evidence.states_complete ≡ true)
        × (has_state evidence.state.states token ≡ false))

abbrev pub Shown : ActionabilityEvidence → Type 0
Shown evidence =
    KnownAbsent evidence.state.hidden evidence (codes "hidden")
    × KnownAbsent evidence.state.offscreen evidence (codes "offscreen")

visible_passed :
    (evidence : ActionabilityEvidence) (geometry : Bool)
    → not_passed (visibility evidence geometry) ≡ false
    → Shown evidence × ((not geometry || bounds_are_visible evidence.bounds) ≡ true)
unfolding visibility visibility_state visibility_bounds
visible_passed evidence geometry h = ground arith

editable_passed :
    (evidence : ActionabilityEvidence) (action : Action)
    → not_passed (editable evidence action) ≡ false
    → writes_element_value action ≡ true
    → (text_eq evidence.state.role (codes "textfield")
        || (text_eq evidence.state.role (codes "combobox")
            || contains evidence.available_actions (codes "SetValue")))
      ≡ true
unfolding editable
editable_passed evidence action h w = ground arith

needs_editable :
    (action : Action) → (requirements_for action).editable ≡ writes_element_value action
unfolding requirements_for writes_element_value
needs_editable action = ground arith

module _ (hash : Rect → ℕ) (arithmetic : Arithmetic) where
  pushed :
      (b : Bool) (c : ActionabilityCheck) (cs : List ActionabilityCheck)
      → any not_passed (push_if hash arithmetic b c cs) ≡ false
      → (b ≡ true → not_passed c ≡ false) × (any not_passed cs ≡ false)
  unfolding push_if
  pushed true c cs h = ground arith
  pushed false c cs h = ground arith

  -- The gates of an accepted request, one by one.
  pub record Gates (x : StabilityExpectation) (evidence : ActionabilityEvidence)
      (request : ActionRequest) (delivery : PointerDelivery) : Type 0 where
    pub visible :
        (requirements_for request.action).visible ≡ true
        → not_passed (
            visibility evidence (
              requires_geometry
                (requirements_for request.action)
                request
                evidence.available_actions))
          ≡ false
    pub stable :
        requires_stability (requirements_for request.action) delivery ≡ true
        → not_passed (stability_check hash arithmetic x evidence.bounds) ≡ false
    pub enabled_gate :
        (requirements_for request.action).enabled ≡ true → not_passed (enabled evidence) ≡ false
    pub editable_gate :
        (requirements_for request.action).editable ≡ true
        → not_passed (editable evidence request.action) ≡ false
    pub supported : not_passed (action_supported evidence request) ≡ false
    pub allowed : not_passed (policy_check request) ≡ false

  gate_checks-Gates :
      (x : StabilityExpectation) (evidence : ActionabilityEvidence) (request : ActionRequest)
      (delivery : PointerDelivery)
      → any not_passed (gate_checks hash arithmetic x evidence request delivery) ≡ false
      → Gates x evidence request delivery
  unfolding gate_checks
  gate_checks-Gates x evidence request delivery h =
      let (a, h₁) = pushed _ _ _ h in
      let (b, h₂) = pushed _ _ _ h₁ in
      let (c, h₃) = pushed _ _ _ h₂ in
      let (d, h₄) = pushed _ _ _ h₃ in
      record {
        visible = a;
        stable = b;
        enabled_gate = c;
        editable_gate = d;
        supported = ground arith;
        allowed = ground arith;
      }

  -- A request that may not move the cursor is never accepted for physical delivery of the pointer:
  -- whatever the evidence, the stability expectation and the hit tests are.
  pub accepted_not_physical :
      (x : StabilityExpectation) (evidence : ActionabilityEvidence) (request : ActionRequest)
      (hit_test : Option HitTest) (r : ActionabilityReport)
      → check_with_stability hash arithmetic x evidence request hit_test ≡ ok r
      → request.policy.allow_cursor_move ≡ false
      → is_physical r.pointer_delivery ≡ false
  accepted_not_physical x evidence request hit_test r e n =
      let a = accepted hash arithmetic x evidence request hit_test r e in
      let gates = gate_checks-Gates x evidence request r.pointer_delivery a.gates_passed in
      ap is_physical a.delivered_by
      ∙ supported_not_physical evidence request gates.supported gates.allowed n

  -- An accepted request for an action that needs a visible target has a target whose hidden and
  -- offscreen states are both known to be absent, and whose bounds are valid and positive where the
  -- geometry is required.
  pub accepted_visible :
      (x : StabilityExpectation) (evidence : ActionabilityEvidence) (request : ActionRequest)
      (hit_test : Option HitTest) (r : ActionabilityReport)
      → check_with_stability hash arithmetic x evidence request hit_test ≡ ok r
      → (requirements_for request.action).visible ≡ true
      → Shown evidence
        × ((not (
                requires_geometry
                  (requirements_for request.action)
                  request
                  evidence.available_actions)
              || bounds_are_visible evidence.bounds)
            ≡ true)
  accepted_visible x evidence request hit_test r e v =
      let a = accepted hash arithmetic x evidence request hit_test r e in
      let gates = gate_checks-Gates x evidence request r.pointer_delivery a.gates_passed in
      visible_passed evidence _ (gates.visible v)

  -- An accepted request for an action that needs an enabled target has one that was read as enabled.
  pub accepted_enabled :
      (x : StabilityExpectation) (evidence : ActionabilityEvidence) (request : ActionRequest)
      (hit_test : Option HitTest) (r : ActionabilityReport)
      → check_with_stability hash arithmetic x evidence request hit_test ≡ ok r
      → (requirements_for request.action).enabled ≡ true
      → evidence.state.enabled ≡ some true
  accepted_enabled x evidence request hit_test r e n =
      let a = accepted hash arithmetic x evidence request hit_test r e in
      let gates = gate_checks-Gates x evidence request r.pointer_delivery a.gates_passed in
      enabled_passed evidence (gates.enabled_gate n)

  -- An accepted request that writes a value has a target that is a text field or a combo box, or that
  -- advertises `SetValue`.
  pub accepted_editable :
      (x : StabilityExpectation) (evidence : ActionabilityEvidence) (request : ActionRequest)
      (hit_test : Option HitTest) (r : ActionabilityReport)
      → check_with_stability hash arithmetic x evidence request hit_test ≡ ok r
      → writes_element_value request.action ≡ true
      → (text_eq evidence.state.role (codes "textfield")
          || (text_eq evidence.state.role (codes "combobox")
              || contains evidence.available_actions (codes "SetValue")))
        ≡ true
  accepted_editable x evidence request hit_test r e w =
      let a = accepted hash arithmetic x evidence request hit_test r e in
      let gates = gate_checks-Gates x evidence request r.pointer_delivery a.gates_passed in
      editable_passed evidence request.action
        (gates.editable_gate (needs_editable request.action ∙ w)) w
