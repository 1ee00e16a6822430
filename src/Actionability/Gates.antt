-- ===== src/Actionability/Gates.antt =====
-- crates/core/src/actionability/gates.rs: the checks one by one, and the stability sampler
-- (stability_sampler.rs) whose result one of them uses. f64 arithmetic is a parameter.
use agent_desktop.Prelude.{
  Bool, Option, String, false, if◌then◌else◌, is_none, is_some, is_some_and, leb, none, not, some,
  true, unwrap_or, ℕ, ◌%◌, ◌&&◌, ◌+◌, ◌-◌, ◌==◌, ◌^◌, ◌||◌,
}
use agent_desktop.Text.{codes, text_eq}
use agent_desktop.Error.{action_not_supported, policy_denied}
use agent_desktop.Policy.{InteractionPolicy}
use agent_desktop.Action.{
  Action, ActionRequest, click, double_click, may_use_focus_fallback, requires_cursor_policy,
  right_click, scroll_to, triple_click, writes_element_value,
}
use agent_desktop.Capability.{
  bounds_are_visible, contains, contains_any, for_action, has_state,
  supports_direct_semantic_pointer_delivery,
}
use agent_desktop.Actionability.{
  ActionabilityCheck, ActionabilityEvidence, StabilityExpectation, fail, fail_terminal, pass,
  requires_geometry, unknown_check,
}
use agent_desktop.Geometry.{F64, Rect, abs, bounds_hash, le_f64}

-- The f64 operations of the processor.
pub record Arithmetic : Type 0 where
  pub add : F64 → F64 → F64
  pub sub : F64 → F64 → F64
  pub mul : F64 → F64 → F64
  pub div : F64 → F64 → F64

-- 0.5
abbrev pub one_half : F64
one_half = 0x3fe0000000000000

-- `visibility` up to the geometry: what the two states say, if they say anything.
unfoldable pub visibility_state :
    Option Bool → Bool → Bool → String → String → String → Option ActionabilityCheck
visibility_state (some true) complete present live unavailable canonical =
    some (fail (codes "visible") live)
visibility_state (some false) complete present live unavailable canonical = none
visibility_state none complete present live unavailable canonical =
    if not complete
    then some (unknown_check (codes "visible") unavailable)
    else if present
    then some (fail (codes "visible") canonical)
    else none

unfoldable pub visibility_bounds : Option Rect → ActionabilityCheck
visibility_bounds none = unknown_check (codes "visible") "bounds unavailable"
visibility_bounds (some bounds) =
    if not (bounds_are_visible (some bounds))
    then fail (codes "visible") "bounds are zero-sized"
    else pass (codes "visible")

unfoldable pub visibility : ActionabilityEvidence → Bool → ActionabilityCheck
visibility evidence requires_geometry =
    let hidden =
      visibility_state evidence.state.hidden evidence.states_complete
        (has_state evidence.state.states (codes "hidden")) "live hidden state is true"
        "live hidden state unavailable" "canonical hidden state is present" in
    let offscreen =
      visibility_state evidence.state.offscreen evidence.states_complete
        (has_state evidence.state.states (codes "offscreen")) "live offscreen state is true"
        "live offscreen state unavailable" "canonical offscreen state is present" in
    unwrap_or hidden (
      unwrap_or offscreen (
        if not requires_geometry && (is_none evidence.state.offscreen && is_some evidence.bounds)
        then pass (codes "visible")
        else visibility_bounds evidence.bounds))

unfoldable pub enabled : ActionabilityEvidence → ActionabilityCheck
enabled evidence = elim evidence.state.enabled [
  | some true ↦ pass (codes "enabled")
  | some false ↦ fail (codes "enabled") "live enabled state is false"
  | none ↦ unknown_check (codes "enabled") "live enabled state unavailable"
]

abbrev pub is_click_or_right_click : Action → Bool
is_click_or_right_click click = true
is_click_or_right_click right_click = true
is_click_or_right_click _ = false

abbrev pub is_multi_click : Action → Bool
is_multi_click double_click = true
is_multi_click triple_click = true
is_multi_click _ = false

abbrev pub is_scroll_to : Action → Bool
is_scroll_to scroll_to = true
is_scroll_to _ = false

abbrev pub allows_physical : InteractionPolicy → Bool
allows_physical p = p.allow_cursor_move && p.allow_focus_steal

unfoldable pub action_supported : ActionabilityEvidence → ActionRequest → ActionabilityCheck
action_supported evidence request =
    if requires_cursor_policy request.action
    then pass (codes "supported_action")
    else if is_scroll_to request.action
    then pass (codes "supported_action")
    else if is_click_or_right_click request.action
    then (if supports_direct_semantic_pointer_delivery request.action evidence.available_actions
        then pass (codes "supported_action")
        else if allows_physical request.policy
        then pass (codes "supported_action")
        else fail_terminal (codes "supported_action")
            "direct semantic delivery is unavailable and physical fallback is denied" policy_denied)
    else if is_multi_click request.action
    then (if allows_physical request.policy
        then pass (codes "supported_action")
        else fail_terminal (codes "supported_action")
            "semantic gesture is unavailable and physical fallback is denied" policy_denied)
    else if contains_any evidence.available_actions (for_action request.action)
    then pass (codes "supported_action")
    else if may_use_focus_fallback request.action && request.policy.allow_focus_steal
    then pass (codes "supported_action")
    else if may_use_focus_fallback request.action
    then fail_terminal (codes "supported_action")
        "semantic action is unavailable and focus fallback is denied" policy_denied
    else fail_terminal (codes "supported_action") "{expected} is not available" action_not_supported

-- `gates::policy`.
unfoldable pub policy_check : ActionRequest → ActionabilityCheck
policy_check request =
    if requires_cursor_policy request.action && not request.policy.allow_cursor_move
    then fail_terminal (codes "policy") "action requires cursor movement but policy denies it"
        policy_denied
    else pass (codes "policy")

-- `gates::editable`. Its list of actions is that of `writes_element_value`.
unfoldable pub editable : ActionabilityEvidence → Action → ActionabilityCheck
editable evidence action =
    if not (writes_element_value action)
    then pass (codes "editable")
    else if text_eq evidence.state.role (codes "textfield")
        || text_eq evidence.state.role (codes "combobox")
    then pass (codes "editable")
    else if contains evidence.available_actions (codes "SetValue")
    then pass (codes "editable")
    else fail_terminal (codes "editable") "role {} is not editable" action_not_supported

abbrev pub option_nat_is : Option ℕ → ℕ → Bool
option_nat_is none n = false
option_nat_is (some m) n = m == n

module _ (hash : Rect → ℕ) (arithmetic : Arithmetic) where
  unfoldable pub geometry_matches : Rect → Rect → Bool
  geometry_matches a b =
      let close = λ (s : F64) (t : F64). le_f64 (abs (arithmetic.sub s t)) one_half in
      close a.x b.x && (close a.y b.y && (close a.width b.width && close a.height b.height))

  unfoldable pub stability_strict : StabilityExpectation → Rect → ActionabilityCheck
  stability_strict expectation bounds = elim expectation.bounds [
    | some expected ↦
        if geometry_matches expected bounds
        then pass (codes "stable")
        else fail (codes "stable") "bounds changed after the stability window"
    | none ↦ elim expectation.bounds_hash [
      | some expected_hash ↦
          if option_nat_is (bounds_hash hash bounds) expected_hash
          then pass (codes "stable")
          else fail (codes "stable") "bounds changed since the previous observation"
      | none ↦ fail (codes "stable") "waiting for stable live bounds observations"
    ]
  ]

  unfoldable pub stability_permissive : StabilityExpectation → Rect → ActionabilityCheck
  stability_permissive expectation bounds = elim expectation.bounds_hash [
    | none ↦ unknown_check (codes "stable") "snapshot bounds hash unavailable"
    | some expected ↦ elim (bounds_hash hash bounds) [
      | none ↦ unknown_check (codes "stable") "live bounds are invalid"
      | some observed_hash ↦
          if observed_hash == expected
          then pass (codes "stable")
          else unknown_check (codes "stable") "bounds changed since snapshot"
    ]
  ]

  unfoldable pub stability_verdict : StabilityExpectation → Option Rect → ActionabilityCheck
  stability_verdict expectation none = unknown_check (codes "stable") "live bounds unavailable"
  stability_verdict expectation (some b) =
      if expectation.strict
      then stability_strict expectation b
      else stability_permissive expectation b

  -- `gates::stability`.
  unfoldable pub stability_check : StabilityExpectation → Option Rect → ActionabilityCheck
  stability_check expectation bounds = record (stability_verdict expectation bounds) {
    stability = some (record { samples = expectation.samples; span_ms = expectation.span_ms });
  }

  pub record StabilitySampler : Type 0 where
    pub previous : Option Rect
    pub consecutive : ℕ
    pub stable_since : ℕ

  abbrev pub new_sampler : StabilitySampler
  new_sampler = record { previous = none; consecutive = 0; stable_since = 0 }

  -- `MIN_STABILITY_SPAN`, in nanoseconds, the unit of every duration of the sampler.
  abbrev pub min_stability_span : ℕ
  min_stability_span = 34000000

  -- `StabilitySampler::observe`.
  unfoldable pub observe : Option Rect → ℕ → StabilitySampler → Bool × StabilitySampler
  observe none elapsed s =
      (false, record { previous = none; consecutive = 0; stable_since = elapsed })
  observe (some bounds) elapsed s =
      let matches = is_some_and s.previous (λ previous. geometry_matches previous bounds) in
      let consecutive = if matches then (s.consecutive + 1) % 2 ^ 32 else 1 in
      let stable_since = if matches then s.stable_since else elapsed in
      (
        leb 3 consecutive && leb min_stability_span (elapsed - stable_since),
        record { previous = some bounds; consecutive = consecutive; stable_since = stable_since },
      )
