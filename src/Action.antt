-- ===== src/Action.antt =====
-- crates/core/src/action.rs and action_request.rs, with direction.rs, key_combo.rs, modifier.rs,
-- drag_params.rs and point.rs: the actions, what each needs, and the requests for them.
use agent_desktop.Prelude.{Bool, List, Option, String, false, if◌then◌else◌, none, true, ℕ}
use agent_desktop.Text.{Text}
use agent_desktop.Policy.{
  HeadedRequirement, InteractionPolicy, focus_fallback, focused_window, focused_window_and_cursor,
  headless, is_headed, nothing,
}
use agent_desktop.RefEntry.{RefProcess}
use agent_desktop.Geometry.{F64}

pub record Point : Type 0 where
  pub x : F64
  pub y : F64

pub data Direction : Type 0 where
  up down left right : Direction

pub data Modifier : Type 0 where
  meta ctrl alt shift : Modifier

pub record KeyCombo : Type 0 where
  pub key : Text
  pub modifiers : List Modifier

pub record DragParams : Type 0 where
  pub from : Point
  pub to : Point
  pub duration_ms : Option ℕ
  pub drop_delay_ms : Option ℕ

pub data Action : Type 0 where
  click double_click right_click triple_click : Action
  set_value : Text → Action
  set_focus expand collapse : Action
  select : Text → Action
  toggle check uncheck : Action
  scroll : Direction → ℕ → Action
  scroll_to : Action
  press_key key_down key_up : KeyCombo → Action
  type_text : Text → Action
  clear hover : Action
  drag : DragParams → Action

unfoldable pub action_headed_requirement : Action → HeadedRequirement
action_headed_requirement click = focused_window_and_cursor
action_headed_requirement double_click = focused_window_and_cursor
action_headed_requirement right_click = focused_window_and_cursor
action_headed_requirement triple_click = focused_window_and_cursor
action_headed_requirement (scroll d n) = focused_window_and_cursor
action_headed_requirement hover = focused_window_and_cursor
action_headed_requirement (drag p) = focused_window_and_cursor
action_headed_requirement _ = focused_window

unfoldable pub name : Action → String
name click = "click"
name double_click = "double-click"
name right_click = "right-click"
name triple_click = "triple-click"
name (set_value t) = "set-value"
name set_focus = "focus"
name expand = "expand"
name collapse = "collapse"
name (select t) = "select"
name toggle = "toggle"
name check = "check"
name uncheck = "uncheck"
name (scroll d n) = "scroll"
name scroll_to = "scroll-to"
name (press_key k) = "press"
name (key_down k) = "key-down"
name (key_up k) = "key-up"
name (type_text t) = "type"
name clear = "clear"
name hover = "hover"
name (drag p) = "drag"

unfoldable pub writes_element_value : Action → Bool
writes_element_value (set_value t) = true
writes_element_value clear = true
writes_element_value (type_text t) = true
writes_element_value _ = false

unfoldable pub requires_state_readback : Action → Bool
unfolding writes_element_value
requires_state_readback check = true
requires_state_readback uncheck = true
requires_state_readback toggle = true
requires_state_readback expand = true
requires_state_readback collapse = true
requires_state_readback a = writes_element_value a

unfoldable pub requires_cursor_policy : Action → Bool
requires_cursor_policy hover = true
requires_cursor_policy (drag p) = true
requires_cursor_policy _ = false

unfoldable pub requires_hit_test : Action → Bool
requires_hit_test click = true
requires_hit_test double_click = true
requires_hit_test right_click = true
requires_hit_test triple_click = true
requires_hit_test hover = true
requires_hit_test (drag p) = true
requires_hit_test _ = false

unfoldable pub may_raise_surface : Action → Bool
may_raise_surface click = true
may_raise_surface double_click = true
may_raise_surface right_click = true
may_raise_surface triple_click = true
may_raise_surface expand = true
may_raise_surface (select t) = true
may_raise_surface (press_key k) = true
may_raise_surface _ = false

unfoldable pub requires_scroll_into_view : Action → Bool
requires_scroll_into_view set_focus = false
requires_scroll_into_view scroll_to = false
requires_scroll_into_view (press_key k) = false
requires_scroll_into_view (key_down k) = false
requires_scroll_into_view (key_up k) = false
requires_scroll_into_view _ = true

unfoldable pub may_use_focus_fallback : Action → Bool
may_use_focus_fallback (type_text t) = true
may_use_focus_fallback (press_key k) = true
may_use_focus_fallback _ = false

unfoldable pub base_interaction_policy : Action → InteractionPolicy
base_interaction_policy (press_key k) = focus_fallback
base_interaction_policy _ = headless

pub record ActionRequest : Type 0 where
  pub action : Action
  pub policy : InteractionPolicy
  pub timeout_ms : Option ℕ
  pub verified_point : Option Point
  pub expected_process : Option RefProcess

-- `ActionRequest::headless`, `focus_fallback` and `headed`, which differ in the policy.
abbrev pub request_with : InteractionPolicy → Action → ActionRequest
request_with p a = record {
  action = a;
  policy = p;
  timeout_ms = none;
  verified_point = none;
  expected_process = none;
}

-- `ActionRequest::headed_requirement`.
unfoldable pub headed_requirement : ActionRequest → HeadedRequirement
unfolding is_headed action_headed_requirement
headed_requirement r = if is_headed r.policy then action_headed_requirement r.action else nothing
