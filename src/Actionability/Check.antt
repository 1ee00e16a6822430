-- ===== src/Actionability/Check.antt =====
-- crates/core/src/actionability/report.rs, receives_events.rs and evaluate.rs: the report on the
-- checks, the hit tests, and the whole evaluation. A platform adapter is its hit tests, one after
-- another: `hit_test n p` is the result of the n-th.
use agent_desktop.Prelude.{
  Bool, List, Option, Result, String, [], all, any, err, false, if◌then◌else◌, is_some_and, ltb,
  none, not, ok, or_else, some, true, unwrap_or, ℕ, ◌%◌, ◌&&◌, ◌++◌, ◌+◌, ◌>>=◌, ◌^◌, ◌||◌, ◌∷◌,
}
use agent_desktop.Text.{Text, codes, text_eq}
use agent_desktop.Error.{
  AdapterError, DeliverySemantics, ErrorCode, action_failed, delivery, new, platform_not_supported,
  with_disposition, with_suggestion,
}
use agent_desktop.Action.{ActionRequest, Point, name, requires_hit_test}
use agent_desktop.Actionability.{
  ActionabilityCheck, ActionabilityEvidence, ActionabilityStatus, HitTestEvidence, HitTestResult,
  PointerDelivery, StabilityExpectation, failed, intercepted_by, is_physical, occluded_check, pass,
  passed, pointer_delivery_of, reaches_target, requirements_for, requires_geometry,
  requires_stability, unknown_check, unknown_hit, unknown_status,
}
use agent_desktop.Actionability.Gates.{
  Arithmetic, action_supported, editable, enabled, one_half, policy_check, stability_check,
  visibility,
}
use agent_desktop.Geometry.{F64, Rect, is_valid_rect, lt_f64}

pub record ActionabilityReport : Type 0 where
  pub actionable : Bool
  pub checks : List ActionabilityCheck
  pub verified_point : Option Point
  pub presentation_point : Option Point
  pub presentation_bounds : Option Rect
  pub pointer_delivery : PointerDelivery

abbrev pub is_pass : ActionabilityStatus → Bool
is_pass passed = true
is_pass _ = false

abbrev pub saw_occluder : Option HitTestEvidence → Bool
saw_occluder h = is_some_and h (λ evidence. ltb 0 evidence.occluded)

unfoldable pub is_blocking : ActionabilityCheck → Bool
is_blocking c = elim c.status [
  | passed ↦ false
  | failed ↦ true
  | unknown_status ↦ not (text_eq c.check_name (codes "receives_events")) || saw_occluder c.hit_test
]

unfoldable pub from_checks :
    List ActionabilityCheck
    → Option Point
    → Option Point
    → Option Rect
    → PointerDelivery
    → ActionabilityReport
from_checks checks verified presentation bounds delivery = record {
  actionable = all (λ c. not (is_blocking c)) checks;
  checks = checks;
  verified_point = verified;
  presentation_point = presentation;
  presentation_bounds = bounds;
  pointer_delivery = delivery;
}

-- `find(is_blocking)`, then its terminal code.
unfoldable pub first_blocking_code : List ActionabilityCheck → Option ErrorCode
first_blocking_code [] = none
first_blocking_code (c ∷ cs) = if is_blocking c then c.terminal_code else first_blocking_code cs

abbrev pub terminal_code : ActionabilityReport → Option ErrorCode
terminal_code r = first_blocking_code r.checks

abbrev pub is_action_failed : ErrorCode → Bool
is_action_failed action_failed = true
is_action_failed _ = false

abbrev pub is_failed : ActionabilityStatus → Bool
is_failed failed = true
is_failed _ = false

unfoldable pub suggestion_for : ActionabilityEvidence → ActionabilityReport → ErrorCode → String
suggestion_for evidence report code =
    if is_action_failed code
    then "Wait for the target to become actionable, refresh the snapshot, or use an explicit physical/focus command if intended."
    else if text_eq evidence.state.role (codes "cell")
        && any (λ c. text_eq c.check_name (codes "editable") && is_failed c.status) report.checks
    then "This cell is not directly editable. Activate it, take a fresh snapshot, and target the text editor if one appears; otherwise the application may accept only keyboard input (--headed)."
    else "Waiting will not help: this element cannot satisfy the action as targeted. Target an element that advertises the action (check available_actions in a fresh snapshot) or adjust the interaction policy (e.g. pass --headed)."

-- `finish`. The JSON of the report, which has no key `retryable`, is left out.
unfoldable pub finish :
    ActionabilityEvidence → ActionabilityReport → Result AdapterError ActionabilityReport
finish evidence report =
    if report.actionable
    then ok report
    else let code = unwrap_or (terminal_code report) action_failed in
      err (
        with_disposition DeliverySemantics.not_delivered (
          with_suggestion (suggestion_for evidence report code)
            (new code "Target is not actionable: {}")))

abbrev pub is_platform_not_supported : ErrorCode → Bool
is_platform_not_supported platform_not_supported = true
is_platform_not_supported _ = false

-- What the loop over the points has seen.
pub record Probes : Type 0 where
  pub first_occlusion : Option ActionabilityCheck
  pub evidence : HitTestEvidence

abbrev pub no_probes : Probes
no_probes = record {
  first_occlusion = none;
  evidence = record { attempted = 0; unknown = 0; occluded = 0 };
}

abbrev pub attempt : Probes → Probes
attempt p = record p {
  evidence = record p.evidence { attempted = (p.evidence.attempted + 1) % 2 ^ 8 };
}

abbrev pub saw_unknown : Probes → Probes
saw_unknown p = record p {
  evidence = record p.evidence { unknown = (p.evidence.unknown + 1) % 2 ^ 8 };
}

abbrev pub saw_occlusion : Option Text → Option Text → Option Rect → Probes → Probes
saw_occlusion role name bounds p = record {
  first_occlusion = or_else p.first_occlusion (some (occluded_check role name bounds));
  evidence = record p.evidence { occluded = (p.evidence.occluded + 1) % 2 ^ 8 };
}

abbrev pub with_hits : HitTestEvidence → ActionabilityCheck → ActionabilityCheck
with_hits evidence c = record c { hit_test = some evidence }

-- After the loop: no point reached the target.
unfoldable pub inconclusive : Probes → ActionabilityCheck
inconclusive p =
    let check =
      if ltb 0 p.evidence.unknown && ltb 0 p.evidence.occluded
      then record (unwrap_or p.first_occlusion (
          unknown_check (codes "receives_events")
            "hit test evidence mixed unknown and occluded outcomes")) {
              status = unknown_status;
              reason = some "hit test evidence mixed unknown and occluded outcomes";
            }
      else if ltb 0 p.evidence.unknown
      then unknown_check (codes "receives_events") "hit test result inconclusive"
      else unwrap_or p.first_occlusion
          (unknown_check (codes "receives_events") "hit test result inconclusive") in
    with_hits p.evidence check

abbrev pub HitTest : Type 0
HitTest = ℕ → Point → Result AdapterError HitTestResult

-- The loop over the candidate points, from the n-th hit test on.
unfoldable pub probe :
    HitTest → ℕ → List Point → Probes → Result AdapterError (ActionabilityCheck × Option Point)
unfolding inconclusive
probe hit_test n [] p = ok (inconclusive p, none)
probe hit_test n (point ∷ points) p = elim (hit_test n point) [
  | ok reaches_target ↦
      ok (with_hits (attempt p).evidence (pass (codes "receives_events")), some point)
  | ok (intercepted_by role name bounds) ↦
      probe hit_test (n + 1) points (saw_occlusion role name bounds (attempt p))
  | ok unknown_hit ↦ probe hit_test (n + 1) points (saw_unknown (attempt p))
  | err error ↦
      if is_platform_not_supported error.code
      then ok (
        with_hits (saw_unknown (attempt p)).evidence
            (unknown_check (codes "receives_events") "hit testing is not supported"),
        none,
      )
      else err error
]

module _ (hash : Rect → ℕ) (arithmetic : Arithmetic) where
  abbrev pub point_at : Rect → F64 → F64 → Point
  point_at bounds x y = record {
    x = arithmetic.add bounds.x (arithmetic.mul bounds.width x);
    y = arithmetic.add bounds.y (arithmetic.mul bounds.height y);
  }

  -- 0.25 and 0.75
  abbrev pub one_quarter : F64
  one_quarter = 0x3fd0000000000000

  abbrev pub three_quarters : F64
  three_quarters = 0x3fe8000000000000

  unfoldable pub candidate_points : Rect → List Point
  candidate_points bounds =
      point_at bounds one_half one_half
      ∷ point_at bounds one_quarter one_quarter
      ∷ point_at bounds three_quarters one_quarter
      ∷ point_at bounds one_quarter three_quarters
      ∷ point_at bounds three_quarters three_quarters
      ∷ []

  unfoldable pub receives_events_check :
      Option Rect
      → HitTest
      → ActionRequest
      → Result AdapterError (ActionabilityCheck × Option Point)
  receives_events_check bounds hit_test request =
      if not (requires_hit_test request.action)
      then ok (pass (codes "receives_events"), none)
      else elim bounds [
        | none ↦ ok (unknown_check (codes "receives_events") "bounds unavailable", none)
        | some b ↦ probe hit_test 0 (candidate_points b) no_probes
      ]

  -- 2.0
  abbrev pub two : F64
  two = 0x4000000000000000

  unfoldable pub center_point : Rect → Option Point
  center_point bounds =
      if is_valid_rect bounds && (lt_f64 0 bounds.width && lt_f64 0 bounds.height)
      then some (record {
        x = arithmetic.add bounds.x (arithmetic.div bounds.width two);
        y = arithmetic.add bounds.y (arithmetic.div bounds.height two);
      })
      else none

  -- `evidence.bounds.and_then(center_point)`.
  abbrev pub presentation_point : Option Rect → Option Point
  presentation_point none = none
  presentation_point (some b) = center_point b

  unfoldable pub push_if :
      Bool → ActionabilityCheck → List ActionabilityCheck → List ActionabilityCheck
  push_if b c cs = if b then c ∷ cs else cs

  -- The checks that come before the hit test.
  unfoldable pub gate_checks :
      StabilityExpectation
      → ActionabilityEvidence
      → ActionRequest
      → PointerDelivery
      → List ActionabilityCheck
  gate_checks expectation evidence request delivery =
      let q = requirements_for request.action in
      push_if q.visible
        (visibility evidence (requires_geometry q request evidence.available_actions))
        (push_if (requires_stability q delivery)
          (stability_check hash arithmetic expectation evidence.bounds)
          (push_if q.enabled (enabled evidence) (
            push_if q.editable (editable evidence request.action)
              (action_supported evidence request ∷ policy_check request ∷ []))))

  -- The hit test, where the pointer is used: the check that it pushes, and the verified point.
  unfoldable pub hit_checks :
      ActionabilityEvidence
      → ActionRequest
      → Option HitTest
      → PointerDelivery
      → Result AdapterError (List ActionabilityCheck × Option Point)
  hit_checks evidence request hit_test delivery =
      if is_physical delivery
      then elim hit_test [
        | none ↦
            ok (
              unknown_check (codes "receives_events") "live hit-test context unavailable" ∷ [],
              none,
            )
        | some h ↦ receives_events_check evidence.bounds h request >>= λ (c, p). ok (c ∷ [], p)
      ]
      else ok ([], none)

  -- `check_with_stability`.
  unfoldable pub check_with_stability :
      StabilityExpectation
      → ActionabilityEvidence
      → ActionRequest
      → Option HitTest
      → Result AdapterError ActionabilityReport
  check_with_stability expectation evidence request hit_test =
      let delivery =
        pointer_delivery_of (requirements_for request.action) request.action
          evidence.available_actions request.policy in
      let checks = gate_checks expectation evidence request delivery in
      let presentation = presentation_point evidence.bounds in
      if any (λ c. not (is_pass c.status)) checks
      then finish evidence (from_checks checks none presentation evidence.bounds delivery)
      else hit_checks evidence request hit_test delivery >>= λ (hit, point).
          finish evidence (from_checks (checks ++ hit) point presentation evidence.bounds delivery)
