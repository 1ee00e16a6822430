-- ===== src/Examples/Actions.antt =====
-- The theorems on actionability at a click on a button.
use agent_desktop.Actionability.Tables.{}
use agent_desktop.Prelude.{
  List, Option, Result, [], arith, err, false, if◌then◌else◌, leb, none, not, ok, refl, some, true,
  ℕ, ◌&&◌, ◌+◌, ◌-◌, ◌==◌, ◌||◌, ◌∷◌, ◌≡◌, ◌⊎◌,
}
use agent_desktop.Error.{AdapterError, new, timeout, retry, safe}
use agent_desktop.Policy.{headed, headless, is_headed, is_headless, requires_cursor}
use agent_desktop.Action.{
  ActionRequest, action_headed_requirement, clear, click, may_use_focus_fallback, request_with,
  requires_cursor_policy, requires_hit_test, writes_element_value,
}
use agent_desktop.Capability.{
  bounds_are_visible, contains, contains_any, for_action, has_state, result,
  supports_direct_semantic_pointer_delivery,
}
use agent_desktop.Actionability.{
  ActionabilityEvidence, HitTestResult, StabilityExpectation, intercepted_by, is_physical,
  not_applicable, pointer_delivery_of, reaches_target, requirements_for, requires_geometry,
  requires_stability,
}
use agent_desktop.Actionability.Gates.{
  Arithmetic, action_supported, editable, enabled, geometry_matches, observe, policy_check,
  stability_check, stability_permissive, stability_strict, stability_verdict, visibility,
  visibility_bounds, visibility_state,
}
use agent_desktop.Actionability.Check.{
  ActionabilityReport, HitTest, candidate_points, center_point, check_with_stability, finish,
  first_blocking_code, from_checks, gate_checks, hit_checks, inconclusive, is_blocking, probe,
  push_if, receives_events_check, suggestion_for,
}
use agent_desktop.Actionability.Safety.{
  Shown, accepted_editable, accepted_enabled, accepted_not_physical, accepted_visible,
}
use agent_desktop.Actionability.HitTests.{accepted_hit}
use agent_desktop.Actionability.Probes.{Reached, none_intercepted}
use agent_desktop.Actionability.Sampler.{History, observe_lem, replay, run_length, run_start}
use agent_desktop.Actionability.Refusal.{FromHitTest, refused_is_safe}
use agent_desktop.Text.{Text, codes, text_eq}
use agent_desktop.Geometry.{
  Rect, abs, bounds_hash, is_finite, is_nan, is_negative, is_valid_rect, le_f64, lt_f64,
}

abbrev sum_hash : Rect → ℕ
sum_hash r = r.x + r.y + r.width + r.height

-- Stand-ins for the f64 operations.
abbrev toy : Arithmetic
toy = record {
  add = λ a b. a + b;
  sub = λ a b. a - b;
  mul = λ a b. if a == 0 then 0 else b;
  div = λ a b. a;
}

-- 100 by 100 at the origin: 0x4059000000000000 is 100.0.
abbrev square : Rect
square = record { x = 0; y = 0; width = 0x4059000000000000; height = 0x4059000000000000 }

abbrev evidence_with : Text → List Text → ActionabilityEvidence
evidence_with role actions = record {
  state = record {
    role = role;
    states = [];
    value = none;
    enabled = some true;
    hidden = some false;
    offscreen = some false;
  };
  states_complete = true;
  bounds = some square;
  available_actions = actions;
}

abbrev button_evidence : ActionabilityEvidence
button_evidence = evidence_with (codes "button") (codes "Click" ∷ [])

abbrev steady : StabilityExpectation
steady = record {
  bounds_hash = some (sum_hash square);
  bounds = none;
  strict = false;
  samples = 1;
  span_ms = 0;
}

abbrev always : HitTestResult → HitTest
always result n point = ok result

-- The report of an evaluation that accepts.
abbrev nothing_checked : ActionabilityReport
nothing_checked = record {
  actionable = true;
  checks = [];
  verified_point = none;
  presentation_point = none;
  presentation_bounds = none;
  pointer_delivery = not_applicable;
}

abbrev report_of : Result AdapterError ActionabilityReport → ActionabilityReport
report_of (ok r) = r
report_of (err e) = nothing_checked

abbrev check_at :
    ActionabilityEvidence → ActionRequest → Option HitTest → Result AdapterError ActionabilityReport
check_at evidence request hit_test =
    check_with_stability sum_hash toy steady evidence request hit_test

abbrev headless_click : ActionRequest
headless_click = request_with headless click

headless_click_accepted :
    check_at button_evidence headless_click none
    ≡ ok (report_of (check_at button_evidence headless_click none))
unfolding check_with_stability gate_checks push_if requirements_for visibility visibility_state
    requires_geometry is_headless supports_direct_semantic_pointer_delivery contains text_eq
    visibility_bounds bounds_are_visible is_valid_rect lt_f64 requires_stability pointer_delivery_of
    is_headed action_headed_requirement may_use_focus_fallback requires_cursor_policy
    requires_hit_test writes_element_value candidate_points center_point finish first_blocking_code
    from_checks hit_checks inconclusive is_blocking probe receives_events_check suggestion_for
    action_supported editable enabled geometry_matches policy_check stability_check
    stability_permissive stability_strict stability_verdict contains_any for_action has_state abs
    bounds_hash is_finite is_nan is_negative le_f64 requires_cursor
headless_click_accepted = refl

abbrev headless_report : ActionabilityReport
headless_report = report_of (check_at button_evidence headless_click none)

accepted_not_physical_example : is_physical headless_report.pointer_delivery ≡ false
accepted_not_physical_example =
    accepted_not_physical sum_hash toy steady button_evidence headless_click none headless_report
      headless_click_accepted refl

accepted_visible_example :
    Shown button_evidence
    × ((not (requires_geometry (requirements_for click) headless_click (codes "Click" ∷ []))
          || bounds_are_visible (some square))
        ≡ true)
unfolding requirements_for
accepted_visible_example =
    accepted_visible sum_hash toy steady button_evidence headless_click none headless_report
      headless_click_accepted refl

accepted_enabled_example : button_evidence.state.enabled ≡ some true
unfolding requirements_for
accepted_enabled_example =
    accepted_enabled sum_hash toy steady button_evidence headless_click none headless_report
      headless_click_accepted refl

abbrev field_evidence : ActionabilityEvidence
field_evidence = evidence_with (codes "textfield") (codes "SetValue" ∷ [])

abbrev clear_request : ActionRequest
clear_request = request_with headless clear

abbrev clear_report : ActionabilityReport
clear_report = report_of (check_at field_evidence clear_request none)

clear_accepted : check_at field_evidence clear_request none ≡ ok clear_report
unfolding check_with_stability gate_checks push_if requirements_for visibility visibility_state
    requires_geometry is_headless supports_direct_semantic_pointer_delivery contains text_eq
    visibility_bounds bounds_are_visible is_valid_rect lt_f64 requires_stability pointer_delivery_of
    is_headed action_headed_requirement may_use_focus_fallback requires_cursor_policy
    requires_hit_test writes_element_value candidate_points center_point finish first_blocking_code
    from_checks hit_checks inconclusive is_blocking probe receives_events_check suggestion_for
    action_supported editable enabled geometry_matches policy_check stability_check
    stability_permissive stability_strict stability_verdict contains_any for_action has_state abs
    bounds_hash is_finite is_nan is_negative le_f64 requires_cursor
clear_accepted = refl

accepted_editable_example :
    (text_eq (codes "textfield") (codes "textfield")
      || (text_eq (codes "textfield") (codes "combobox")
          || contains (codes "SetValue" ∷ []) (codes "SetValue")))
    ≡ true
unfolding writes_element_value
accepted_editable_example =
    accepted_editable sum_hash toy steady field_evidence clear_request none clear_report
      clear_accepted refl

abbrev headed_click : ActionRequest
headed_click = request_with headed click

abbrev headed_report : ActionabilityReport
headed_report = report_of (check_at button_evidence headed_click (some (always reaches_target)))

headed_click_accepted :
    check_at button_evidence headed_click (some (always reaches_target)) ≡ ok headed_report
unfolding check_with_stability gate_checks push_if requirements_for visibility visibility_state
    requires_geometry is_headless supports_direct_semantic_pointer_delivery contains text_eq
    visibility_bounds bounds_are_visible is_valid_rect lt_f64 requires_stability pointer_delivery_of
    is_headed action_headed_requirement may_use_focus_fallback requires_cursor_policy
    requires_hit_test writes_element_value candidate_points center_point finish first_blocking_code
    from_checks hit_checks inconclusive is_blocking probe receives_events_check suggestion_for
    action_supported editable enabled geometry_matches policy_check stability_check
    stability_permissive stability_strict stability_verdict contains_any for_action has_state abs
    bounds_hash is_finite is_nan is_negative le_f64 requires_cursor
headed_click_accepted = refl

headed_click_physical : is_physical headed_report.pointer_delivery ≡ true
unfolding check_with_stability gate_checks push_if requirements_for visibility visibility_state
    requires_geometry is_headless supports_direct_semantic_pointer_delivery contains text_eq
    visibility_bounds bounds_are_visible is_valid_rect lt_f64 requires_stability pointer_delivery_of
    is_headed action_headed_requirement may_use_focus_fallback requires_cursor_policy
    requires_hit_test writes_element_value candidate_points center_point finish first_blocking_code
    from_checks hit_checks inconclusive is_blocking probe receives_events_check suggestion_for
    action_supported editable enabled geometry_matches policy_check stability_check
    stability_permissive stability_strict stability_verdict contains_any for_action has_state abs
    bounds_hash is_finite is_nan is_negative le_f64 requires_cursor
headed_click_physical = refl

accepted_hit_example :
    Reached
      (always reaches_target)
      (candidate_points sum_hash toy square)
      headed_report.verified_point
    ⊎ ((headed_report.verified_point ≡ none)
        × (none_intercepted (always reaches_target) 0 (candidate_points sum_hash toy square)
            ≡ true))
accepted_hit_example =
    accepted_hit sum_hash toy steady button_evidence headed_click (always reaches_target) square
      headed_report headed_click_accepted refl headed_click_physical

abbrev occluded_hit : HitTest
occluded_hit = always (intercepted_by (some (codes "dialog")) none none)

abbrev no_error : AdapterError
no_error = new timeout "nothing was refused"

abbrev error_of : Result AdapterError ActionabilityReport → AdapterError
error_of (ok r) = no_error
error_of (err e) = e

abbrev refusal : AdapterError
refusal = error_of (check_at button_evidence headed_click (some occluded_hit))

occluded_click_refused : check_at button_evidence headed_click (some occluded_hit) ≡ err refusal
unfolding check_with_stability gate_checks push_if requirements_for visibility visibility_state
    requires_geometry is_headless supports_direct_semantic_pointer_delivery contains text_eq
    visibility_bounds bounds_are_visible is_valid_rect lt_f64 requires_stability pointer_delivery_of
    is_headed action_headed_requirement may_use_focus_fallback requires_cursor_policy
    requires_hit_test writes_element_value candidate_points center_point finish first_blocking_code
    from_checks hit_checks inconclusive is_blocking probe receives_events_check suggestion_for
    action_supported editable enabled geometry_matches policy_check stability_check
    stability_permissive stability_strict stability_verdict contains_any for_action has_state abs
    bounds_hash is_finite is_nan is_negative le_f64 requires_cursor
occluded_click_refused = refl

refused_is_safe_example :
    FromHitTest (some occluded_hit) refusal ⊎ (retry refusal.disposition ≡ safe)
refused_is_safe_example =
    refused_is_safe sum_hash toy steady button_evidence headed_click (some occluded_hit) refusal
      occluded_click_refused

-- Two earlier readings of the same bounds, 20 and 40 ms ago.
abbrev earlier : History sum_hash toy
earlier = (some square, 20000000) ∷ (some square, 0) ∷ []

observe_lem_example :
    (observe sum_hash toy (some square) 40000000 (replay sum_hash toy earlier)).0 ≡ (
      leb 3 (run_length sum_hash toy ((some square, 40000000) ∷ earlier))
      && leb 34000000 (40000000 - run_start sum_hash toy ((some square, 40000000) ∷ earlier)))
observe_lem_example = observe_lem sum_hash toy earlier (some square) 40000000 (omega arith)
