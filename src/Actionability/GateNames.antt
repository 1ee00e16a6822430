-- ===== src/Actionability/GateNames.antt =====
-- The checks before the hit test: none has its name, so that each must pass.
use agent_desktop.Action.{Action, ActionRequest}
use agent_desktop.Error.{delivery}
use agent_desktop.Prelude.{
  &&-true, Bool, List, Option, String, [], all, any, false, if◌then◌else◌, inl, inr, is_none,
  is_some, none, not, refl, some, true, unwrap_or, ◌&&◌, ◌∷◌, ◌≡◌, &&-intro, Option-cases, ℕ, arith,
  ◌++◌,
}
use agent_desktop.Text.{codes, text_eq}
use agent_desktop.Capability.{bounds_are_visible}
use agent_desktop.Actionability.{
  ActionabilityCheck, ActionabilityEvidence, ActionabilityStatus, failed, passed, unknown_status,
  PointerDelivery, StabilityExpectation,
}
use agent_desktop.Actionability.Gates.{
  visibility, visibility_bounds, visibility_state, Arithmetic, action_supported, editable, enabled,
  policy_check, stability_check, stability_permissive, stability_strict, stability_verdict,
}
use agent_desktop.Actionability.Check.{is_blocking, is_pass, gate_checks, push_if}
use agent_desktop.Geometry.{Rect}

-- A check that is not the hit test.
unfoldable pub is_gate : ActionabilityCheck → Bool
is_gate c = not (text_eq c.check_name (codes "receives_events"))

named :
    (c : ActionabilityCheck)
    → text_eq c.check_name (codes "receives_events") ≡ false
    → is_gate c ≡ true
unfolding is_gate
named c h = rw h refl

abbrev passes : ActionabilityCheck → Bool
passes c = is_pass c.status

unblocked_passes :
    (c : ActionabilityCheck) → is_gate c ≡ true → not (is_blocking c) ≡ true → passes c ≡ true
unfolding is_blocking is_gate
unblocked_passes c g b = go c.status refl
  where
    go : (s : ActionabilityStatus) → c.status ≡ s → is_pass s ≡ true
    go passed e = refl
    go failed e = cc (rw e at b)
    go unknown_status e = let k = rw (e, g) at b in cc k

pub all-later :
    (p : ActionabilityCheck → Bool) (xs ys : List ActionabilityCheck)
    → all p (xs ++ ys) ≡ true
    → all p ys ≡ true
all-later p [] ys h = h
all-later p (x ∷ xs) ys h = all-later p xs ys (&&-true (p x) _ h).1

pub all_pass :
    (cs : List ActionabilityCheck)
    → all is_gate cs ≡ true
    → all (λ c. not (is_blocking c)) cs ≡ true
    → any (λ c. not (is_pass c.status)) cs ≡ false
all_pass [] g b = refl
all_pass (c ∷ cs) g b =
    let (g₁, g₂) = &&-true (is_gate c) _ g in
    let (b₁, b₂) = &&-true (not (is_blocking c)) _ b in
    rw (unblocked_passes c g₁ b₁) (all_pass cs g₂ b₂)

named_visible :
    (live unavailable canonical : String) (o : Option Bool) (complete present : Bool)
    (rest : ActionabilityCheck)
    → is_gate rest ≡ true
    → is_gate (unwrap_or (visibility_state o complete present live unavailable canonical) rest)
      ≡ true
unfolding visibility_state text_eq
named_visible l u c (some true) complete present rest h = named _ refl
named_visible l u c (some false) complete present rest h = h
named_visible l u c none true true rest h = named _ refl
named_visible l u c none true false rest h = h
named_visible l u c none false present rest h = named _ refl

-- Both branches of a test are no hit test.
either_is_gate :
    (b : Bool) (c d : ActionabilityCheck)
    → is_gate c ≡ true
    → is_gate d ≡ true
    → is_gate (if b then c else d) ≡ true
either_is_gate true c d h k = h
either_is_gate false c d h k = k

visibility_bounds-is_gate : (o : Option Rect) → is_gate (visibility_bounds o) ≡ true
unfolding visibility_bounds text_eq
visibility_bounds-is_gate none = named _ refl
visibility_bounds-is_gate (some r) =
    either_is_gate (not (bounds_are_visible (some r))) _ _ (named _ refl) (named _ refl)

visibility-is_gate :
    (evidence : ActionabilityEvidence) (b : Bool) → is_gate (visibility evidence b) ≡ true
unfolding visibility text_eq
visibility-is_gate evidence b = named_visible _ _ _ evidence.state.hidden _ _ _ (
    named_visible _ _ _ evidence.state.offscreen _ _ _ (
      either_is_gate (not b && (is_none evidence.state.offscreen && is_some evidence.bounds)) _ _
        (named _ refl) (visibility_bounds-is_gate evidence.bounds)))

enabled-is_gate : (evidence : ActionabilityEvidence) → is_gate (enabled evidence) ≡ true
unfolding enabled text_eq
enabled-is_gate evidence = elim (Option-cases evidence.state.enabled) [
  | inl n ↦ rw n (named _ refl)
  | inr (true, y) ↦ rw y (named _ refl)
  | inr (false, y) ↦ rw y (named _ refl)
]

editable-is_gate :
    (evidence : ActionabilityEvidence) (action : Action) → is_gate (editable evidence action) ≡ true
unfolding editable is_gate text_eq
editable-is_gate evidence action = ground arith

action_supported-is_gate :
    (evidence : ActionabilityEvidence) (request : ActionRequest)
    → is_gate (action_supported evidence request) ≡ true
unfolding action_supported is_gate text_eq
action_supported-is_gate evidence request = ground arith

policy_check-is_gate : (request : ActionRequest) → is_gate (policy_check request) ≡ true
unfolding policy_check is_gate text_eq
policy_check-is_gate request = ground arith

module _ (hash : Rect → ℕ) (arithmetic : Arithmetic) where
  stability_strict-is_gate :
      (x : StabilityExpectation) (b : Rect) → is_gate (stability_strict hash arithmetic x b) ≡ true
  unfolding stability_strict is_gate text_eq
  stability_strict-is_gate x b = ground arith

  stability_permissive-is_gate :
      (x : StabilityExpectation) (b : Rect)
      → is_gate (stability_permissive hash arithmetic x b) ≡ true
  unfolding stability_permissive is_gate text_eq
  stability_permissive-is_gate x b = ground arith

  stability_check-is_gate :
      (x : StabilityExpectation) (o : Option Rect)
      → is_gate (stability_check hash arithmetic x o) ≡ true
  unfolding stability_check stability_verdict text_eq is_gate
  stability_check-is_gate x none = refl
  stability_check-is_gate x (some b) = either x.strict
    where
      either :
          (strict : Bool)
          → not (
              text_eq
                (if strict
                  then stability_strict hash arithmetic x b
                  else stability_permissive hash arithmetic x b).check_name
                (codes "receives_events"))
            ≡ true
      either true = stability_strict-is_gate x b
      either false = stability_permissive-is_gate x b

  push_if-all :
      (b : Bool) (c : ActionabilityCheck) (cs : List ActionabilityCheck)
      → is_gate c ≡ true
      → all is_gate cs ≡ true
      → all is_gate (push_if hash arithmetic b c cs) ≡ true
  unfolding push_if
  push_if-all true c cs h k = &&-intro (is_gate c) _ h k
  push_if-all false c cs h k = k

  pub gate_checks-are_gates :
      (x : StabilityExpectation) (evidence : ActionabilityEvidence) (request : ActionRequest)
      (delivery : PointerDelivery)
      → all is_gate (gate_checks hash arithmetic x evidence request delivery) ≡ true
  unfolding gate_checks
  gate_checks-are_gates x evidence request delivery =
      push_if-all _ _ _ (visibility-is_gate evidence _) (
        push_if-all _ _ _ (stability_check-is_gate x evidence.bounds) (
          push_if-all _ _ _ (enabled-is_gate evidence) (
            push_if-all _ _ _ (editable-is_gate evidence request.action) (
              &&-intro _ _ (action_supported-is_gate evidence request)
                (&&-intro _ _ (policy_check-is_gate request) refl)))))
