-- ===== src/Capability.antt =====
-- crates/core/src/capability.rs: the actions an element must advertise for a requested action, and
-- state.rs: the states of an element.
use agent_desktop.Prelude.{
  Bool, List, Option, [], any, false, if◌then◌else◌, is_some_and, not, ◌&&◌, ◌∷◌,
}
use agent_desktop.Text.{Text, codes, text_eq}
use agent_desktop.Action.{
  Action, check, clear, click, collapse, double_click, drag, expand, hover, key_down, key_up,
  press_key, right_click, scroll, scroll_to, select, set_focus, set_value, toggle, triple_click,
  type_text, uncheck,
}
use agent_desktop.Geometry.{Rect, is_valid_rect, lt_f64}

unfoldable pub for_action : Action → List Text
for_action click = codes "Click" ∷ []
for_action double_click = codes "Click" ∷ []
for_action triple_click = codes "Click" ∷ []
for_action right_click = codes "RightClick" ∷ []
for_action (set_value t) = codes "SetValue" ∷ []
for_action clear = codes "SetValue" ∷ []
for_action set_focus = codes "SetFocus" ∷ []
for_action expand = codes "Expand" ∷ []
for_action collapse = codes "Collapse" ∷ []
for_action (select t) = codes "Select" ∷ codes "Click" ∷ []
for_action toggle = codes "Toggle" ∷ codes "Click" ∷ []
for_action check = codes "Toggle" ∷ codes "Click" ∷ []
for_action uncheck = codes "Toggle" ∷ codes "Click" ∷ []
for_action (scroll d n) = codes "Scroll" ∷ []
for_action scroll_to = codes "ScrollTo" ∷ []
for_action (press_key k) = codes "PressKey" ∷ []
for_action (key_down k) = codes "KeyDown" ∷ []
for_action (key_up k) = codes "KeyUp" ∷ []
for_action (type_text t) = codes "TypeText" ∷ []
for_action hover = codes "Hover" ∷ []
for_action (drag p) = codes "Drag" ∷ []

unfoldable pub contains : List Text → Text → Bool
contains actions capability = any (λ action. text_eq action capability) actions

unfoldable pub contains_any : List Text → List Text → Bool
contains_any actions capabilities = any (contains actions) capabilities

unfoldable pub supports_direct_semantic_pointer_delivery : Action → List Text → Bool
supports_direct_semantic_pointer_delivery click actions = contains actions (codes "Click")
supports_direct_semantic_pointer_delivery right_click actions =
    contains actions (codes "RightClick")
supports_direct_semantic_pointer_delivery _ actions = false

unfoldable pub has_state : List Text → Text → Bool
has_state states token = any (λ state. text_eq state token) states

-- `bounds_are_visible` of actionability/gates.rs.
unfoldable pub bounds_are_visible : Option Rect → Bool
bounds_are_visible bounds =
    is_some_and bounds (λ b. is_valid_rect b && (lt_f64 0 b.width && lt_f64 0 b.height))

unfoldable pub is_visible : Option Rect → List Text → Bool
is_visible bounds states =
    bounds_are_visible bounds
    && (not (has_state states (codes "hidden")) && not (has_state states (codes "offscreen")))

pub record VisibilityEvidence : Type 0 where
  pub bounds : Option Rect
  pub states : List Text
  pub bounds_from_live : Bool
  pub states_from_live : Bool

unfoldable pub applicable : VisibilityEvidence → Bool
applicable e = e.bounds_from_live && e.states_from_live

unfoldable pub result : VisibilityEvidence → Bool
unfolding applicable
result e = if not (applicable e) then false else is_visible e.bounds e.states
