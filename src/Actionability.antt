-- ===== src/Actionability.antt =====
-- crates/core/src/actionability: check.rs, check_result.rs, status.rs, evidence.rs, occluder.rs,
-- hit_test_evidence.rs, stability.rs, stability_evidence.rs, pointer_delivery.rs and requirements.rs,
-- with hit_test.rs and element_state.rs of the parent: the data of the checks that an action must
-- pass before it is delivered, and which of them an action needs.
pub mod Gates
pub mod Check
pub mod GateNames
pub mod Accepted
pub mod Safety
pub mod Probes
pub mod HitTests
pub mod Sampler
pub mod Refusal
pub mod Tables
use agent_desktop.Prelude.{
  Bool, List, Option, String, false, if◌then◌else◌, none, not, some, true, ℕ, ◌&&◌, ◌||◌,
}
use agent_desktop.Text.{Text, codes}
use agent_desktop.Error.{ErrorCode, delivery}
use agent_desktop.Policy.{InteractionPolicy, is_headed, is_headless, requires_cursor}
use agent_desktop.Action.{
  Action, ActionRequest, action_headed_requirement, check, clear, click, collapse, double_click,
  drag, expand, hover, right_click, scroll, scroll_to, select, set_value, toggle, triple_click,
  type_text, uncheck,
}
use agent_desktop.Capability.{contains_any, for_action, supports_direct_semantic_pointer_delivery}
use agent_desktop.Geometry.{Rect}

pub data ActionabilityStatus : Type 0 where
  passed failed unknown_status : ActionabilityStatus

pub record Occluder : Type 0 where
  pub role : Option Text
  pub name : Option Text
  pub bounds : Option Rect

pub record HitTestEvidence : Type 0 where
  pub attempted : ℕ
  pub unknown : ℕ
  pub occluded : ℕ

pub record StabilityEvidence : Type 0 where
  pub samples : ℕ
  pub span_ms : ℕ

pub record ActionabilityCheck : Type 0 where
  pub check_name : Text
  pub status : ActionabilityStatus
  pub reason : Option String
  pub occluder : Option Occluder
  pub terminal_code : Option ErrorCode
  pub hit_test : Option HitTestEvidence
  pub stability : Option StabilityEvidence

abbrev pub outcome : Text → ActionabilityStatus → Option String → ActionabilityCheck
outcome check_name status reason = record {
  check_name = check_name;
  status = status;
  reason = reason;
  occluder = none;
  terminal_code = none;
  hit_test = none;
  stability = none;
}

abbrev pub pass : Text → ActionabilityCheck
pass c = outcome c passed none

abbrev pub fail : Text → String → ActionabilityCheck
fail c reason = outcome c failed (some reason)

abbrev pub fail_terminal : Text → String → ErrorCode → ActionabilityCheck
fail_terminal c reason code = record (outcome c failed (some reason)) { terminal_code = some code }

abbrev pub unknown_check : Text → String → ActionabilityCheck
unknown_check c reason = outcome c unknown_status (some reason)

abbrev pub occluded_check : Option Text → Option Text → Option Rect → ActionabilityCheck
occluded_check role name bounds =
    record (outcome (codes "receives_events") failed (some "occluded by another element")) {
      occluder = some (record { role = role; name = name; bounds = bounds });
    }

pub record ElementState : Type 0 where
  pub role : Text
  pub states : List Text
  pub value : Option Text
  pub enabled : Option Bool
  pub hidden : Option Bool
  pub offscreen : Option Bool

pub record ActionabilityEvidence : Type 0 where
  pub state : ElementState
  pub states_complete : Bool
  pub bounds : Option Rect
  pub available_actions : List Text

pub record StabilityExpectation : Type 0 where
  pub bounds_hash : Option ℕ
  pub bounds : Option Rect
  pub strict : Bool
  pub samples : ℕ
  pub span_ms : ℕ

pub data HitTestResult : Type 0 where
  reaches_target : HitTestResult
  intercepted_by : Option Text → Option Text → Option Rect → HitTestResult
  unknown_hit : HitTestResult

pub data PointerDelivery : Type 0 where
  not_applicable semantic physical : PointerDelivery

pub record ActionabilityRequirements : Type 0 where
  pub visible : Bool
  pub stable : Bool
  pub enabled : Bool
  pub editable : Bool
  pub receives_events : Bool

abbrev pub needs : Bool → Bool → Bool → Bool → Bool → ActionabilityRequirements
needs v s n e r = record { visible = v; stable = s; enabled = n; editable = e; receives_events = r }

-- `ActionabilityRequirements::for_action`.
unfoldable pub requirements_for : Action → ActionabilityRequirements
requirements_for click = needs true true true false true
requirements_for double_click = needs true true true false true
requirements_for right_click = needs true true true false true
requirements_for triple_click = needs true true true false true
requirements_for hover = needs true true false false true
requirements_for (drag p) = needs true true false false true
requirements_for (set_value t) = needs true false true true false
requirements_for (type_text t) = needs true false true true false
requirements_for clear = needs true false true true false
requirements_for (select t) = needs true false true false false
requirements_for expand = needs true true true false false
requirements_for collapse = needs true true true false false
requirements_for toggle = needs true true true false false
requirements_for check = needs true true true false false
requirements_for uncheck = needs true true true false false
requirements_for (scroll d n) = needs true true true false false
requirements_for scroll_to = needs false true false false false
requirements_for _ = needs false false false false false

unfoldable pub pointer_delivery_of :
    ActionabilityRequirements → Action → List Text → InteractionPolicy → PointerDelivery
pointer_delivery_of q action available_actions policy =
    if not q.receives_events
    then not_applicable
    else if is_headed policy && requires_cursor (action_headed_requirement action)
    then physical
    else if supports_direct_semantic_pointer_delivery action available_actions
    then semantic
    else physical

unfoldable pub requires_geometry : ActionabilityRequirements → ActionRequest → List Text → Bool
requires_geometry q request available_actions =
    if not (is_headless request.policy)
    then true
    else let direct_pointer =
        supports_direct_semantic_pointer_delivery request.action available_actions in
      let direct_text = q.editable && contains_any available_actions (for_action request.action) in
      not (direct_pointer || direct_text)

abbrev pub is_semantic : PointerDelivery → Bool
is_semantic semantic = true
is_semantic _ = false

abbrev pub is_physical : PointerDelivery → Bool
is_physical physical = true
is_physical _ = false

unfoldable pub requires_stability : ActionabilityRequirements → PointerDelivery → Bool
requires_stability q delivery = q.stable && not (is_semantic delivery)
