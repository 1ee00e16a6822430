-- ===== src/PostAction.antt =====
-- crates/core/src/post_action.rs, value_matches.rs, action_result.rs, action_step.rs,
-- action_step_outcome.rs, live_element.rs and live_identity.rs: an action is executed once, and a
-- stateful one is verified on the element as it is read afterwards. The world `W` is what the adapter
-- and the clock are about. The lease is its deadline. JSON details, steps' labels and surfaces are
-- left out.
pub mod Execute
pub mod Once
pub mod Insertion
pub mod Settled
pub mod Fulfilled
pub mod Verified
use agent_desktop.Identifiers.{IdentifierEvidence}
use agent_desktop.Locator.{LocatorField, bool_eq}
use agent_desktop.Prelude.{
  Bool, List, Option, String, [], false, if◌then◌else◌, is_empty, is_some, leb, length, ltb,
  map_option, none, not, some, suc, take, true, unwrap_or, zero, ℕ, ◌&&◌, ◌++◌, ◌-◌, ◌==◌, ◌^◌,
  ◌||◌, ◌∷◌, ◌*◌, ◌+◌,
}
use agent_desktop.Text.{Text, codes, is_ascii_digit, text_eq, text_in}
use agent_desktop.Text.Utf16.{encode_utf16, from_utf16}
use agent_desktop.Error.{
  AdapterError, DeliverySemantics, action_failed, delivered_unverified, delivered_verified, new,
  not_delivered, with_suggestion, delivery,
}
use agent_desktop.Geometry.{F64, Rect, abs, is_finite, le_f64, lt_f64}
use agent_desktop.Capability.{has_state}
use agent_desktop.Action.{
  name, Action, check, clear, collapse, expand, set_value, toggle, type_text, uncheck,
  writes_element_value,
}
use agent_desktop.Actionability.{ElementState}
use agent_desktop.Actionability.Gates.{Arithmetic}

pub record LiveIdentity : Type 0 where
  pub name : LocatorField Text
  pub description : LocatorField Text
  pub identifiers : IdentifierEvidence

pub record LiveElement : Type 0 where
  pub identity : LiveIdentity
  pub state : ElementState
  pub states_complete : Bool
  pub bounds : Option Rect
  pub available_actions : List Text

pub data ActionStepOutcome : Type 0 where
  attempted skipped succeeded : ActionStepOutcome

pub record ActionStep : Type 0 where
  pub outcome : ActionStepOutcome
  pub verified : Option Bool

pub record ActionResult : Type 0 where
  pub action : String
  pub post_state : Option ElementState
  pub steps : List ActionStep
  pub disposition : DeliverySemantics

abbrev pub result_with : DeliverySemantics → String → ActionResult
result_with d label = record { action = label; post_state = none; steps = []; disposition = d }

abbrev pub satisfied_without_delivery : String → ActionResult
satisfied_without_delivery = result_with DeliverySemantics.not_delivered

abbrev pub delivered_unverified_result : String → ActionResult
delivered_unverified_result = result_with DeliverySemantics.delivered_unverified

abbrev pub verify_delivery : DeliverySemantics → DeliverySemantics
verify_delivery DeliverySemantics.delivered_unverified = DeliverySemantics.delivered_verified
verify_delivery d = d

abbrev pub unverify_delivery : DeliverySemantics → DeliverySemantics
unverify_delivery DeliverySemantics.delivered_verified = DeliverySemantics.delivered_unverified
unverify_delivery d = d

abbrev pub with_verified_delivery : ActionResult → ActionResult
with_verified_delivery r = record r { disposition = verify_delivery r.disposition }

abbrev pub with_unverified_delivery : ActionResult → ActionResult
with_unverified_delivery r = record r { disposition = unverify_delivery r.disposition }

abbrev pub is_succeeded : ActionStepOutcome → Bool
is_succeeded succeeded = true
is_succeeded _ = false

-- A step of the loop of `delivery_summary`.
unfoldable pub summarize : Bool × Option Bool → ActionStep → Bool × Option Bool
summarize (delivered, verification) step =
    if is_succeeded step.outcome
    then (
      true,
      elim step.verified [
        | none ↦ verification
        | some verified ↦ some (unwrap_or verification true && verified)
      ],
    )
    else (delivered, verification)

unfoldable pub summary_from : Bool × Option Bool → List ActionStep → Bool × Option Bool
unfolding summarize
summary_from seen [] = seen
summary_from seen (step ∷ steps) = summary_from (summarize seen step) steps

unfoldable pub delivery_summary : List ActionStep → Bool × Bool
unfolding summary_from
delivery_summary steps =
    let (delivered, verification) = summary_from (false, none) steps in
    (delivered, unwrap_or verification false)

unfoldable pub from_execution : Action → List ActionStep → ActionResult
unfolding delivery_summary
from_execution action steps =
    let (delivered, verified) = delivery_summary steps in
    if not delivered
    then record (satisfied_without_delivery (name action)) { steps = steps }
    else let delivery = record (delivered_unverified_result (name action)) { steps = steps } in
      if verified then with_verified_delivery delivery else delivery

unfoldable pub parse_magnitude : ℕ → Text → Option ℕ
unfolding is_ascii_digit
parse_magnitude acc [] = some acc
parse_magnitude acc (c ∷ cs) =
    let rest = parse_magnitude (acc * 10 + (c - b'0')) cs in if is_ascii_digit c then rest else none

-- `parse::<i128>`: the sign, and the magnitude; zero has no sign.
unfoldable pub parse_i128 : Text → Option (Bool × ℕ)
unfolding parse_magnitude
parse_i128 [] = none
parse_i128 (c ∷ cs) =
    let negative = c == b'-' in
    let unsigned = if negative || c == b'+' then cs else c ∷ cs in
    let limit = if negative then 2 ^ 127 else 2 ^ 127 - 1 in
    if is_empty unsigned then none else elim (parse_magnitude 0 unsigned) [
      | none ↦ none
      | some n ↦ if ltb limit n then none else some (negative && not (n == 0), n)
    ]

abbrev pub is_numeric_control : Text → Bool
is_numeric_control role =
    text_in (codes "slider" ∷ codes "incrementor" ∷ codes "scrollbar" ∷ codes "handle" ∷ []) role

-- 9_007_199_254_740_992.0
abbrev pub largest_exact : F64
largest_exact = 0x4340000000000000

-- 1e-6
abbrev pub tolerance : F64
tolerance = 0x3eb0c6f7a0b5ed8d

-- `parse_f64` is `parse::<f64>`.
module _ (arithmetic : Arithmetic) (parse_f64 : Text → Option F64) where
  unfoldable pub close : F64 → F64 → Bool
  close a b =
      is_finite a
      && is_finite b
      && (lt_f64 (abs a) largest_exact && lt_f64 (abs b) largest_exact)
      && le_f64 (abs (arithmetic.sub a b)) tolerance

  unfoldable pub numbers_match : Text → Text → Bool
  unfolding parse_i128 close
  numbers_match expected observed = elim (parse_i128 expected) [
    | some (s, m) ↦ elim (parse_i128 observed) [
      | some (t, n) ↦ bool_eq s t && m == n
      | none ↦ close_texts expected observed
    ]
    | none ↦ close_texts expected observed
  ]
    where
      close_texts : Text → Text → Bool
      close_texts a b = elim (parse_f64 a) [
        | none ↦ false
        | some x ↦ elim (parse_f64 b) [ none ↦ false | some y ↦ close x y ]
      ]

  unfoldable pub value_matches : Text → Text → Text → Bool
  unfolding numbers_match
  value_matches role expected observed =
      text_eq expected observed || is_numeric_control role && numbers_match expected observed

unfoldable pub checked : LiveElement → Option Bool
unfolding has_state
checked element =
    if not element.states_complete || has_state element.state.states (codes "indeterminate")
    then none
    else some (has_state element.state.states (codes "checked"))

unfoldable pub secure_value_is_redacted : Action → LiveElement → Bool
unfolding has_state
secure_value_is_redacted action observed =
    writes_element_value action
    && not (is_some observed.state.value)
    && has_state observed.state.states (codes "secure")

module _ (arithmetic : Arithmetic) (parse_f64 : Text → Option F64) where
  unfoldable pub matches_postcondition :
      Action → Option LiveElement → Option Text → LiveElement → Option Bool
  unfolding value_matches checked has_state
  matches_postcondition (set_value expected) before expected_text observed =
      map_option (value_matches arithmetic parse_f64 observed.state.role expected)
        observed.state.value
  matches_postcondition clear before expected_text observed =
      map_option is_empty observed.state.value
  matches_postcondition (type_text t) before none observed = none
  matches_postcondition (type_text t) before (some expected) observed =
      map_option (text_eq expected) observed.state.value
  matches_postcondition check before expected_text observed = checked observed
  matches_postcondition uncheck before expected_text observed = map_option not (checked observed)
  matches_postcondition toggle none expected_text observed = none
  matches_postcondition toggle (some element) expected_text observed = elim (checked element) [
    | none ↦ none
    | some was ↦ map_option (λ is. not (bool_eq was is)) (checked observed)
  ]
  matches_postcondition expand before expected_text observed =
      if observed.states_complete
      then some (has_state observed.state.states (codes "expanded"))
      else none
  matches_postcondition collapse before expected_text observed =
      if observed.states_complete
      then some (not (has_state observed.state.states (codes "expanded")))
      else none
  matches_postcondition _ before expected_text observed = none

abbrev pub drop : ℕ → List ℕ → List ℕ
drop zero us = us
drop (suc n) [] = []
drop (suc n) (u ∷ us) = drop n us

-- `expected_insertion`: the range is one of UTF-16 units, `start..end`.
unfoldable pub insert_at : Text → Text → ℕ × ℕ → Option Text
unfolding from_utf16 encode_utf16
insert_at before text (start, stop) =
    let units = encode_utf16 before in
    if not (leb start stop && leb stop (length units))
    then none
    else if not (is_some (from_utf16 (take start units)) && is_some (from_utf16 (drop stop units)))
    then none
    else from_utf16 (take start units ++ encode_utf16 text ++ drop stop units)

unfoldable pub expected_insertion : Text → Text → Option (ℕ × ℕ) → Option Text
unfolding insert_at
expected_insertion before text (some range) = insert_at before text range
expected_insertion before text none = if is_empty before then insert_at before text (0, 0) else none

abbrev pub is_type_text : Action → Bool
is_type_text (type_text t) = true
is_type_text _ = false

unfoldable pub mismatch_error : Action → AdapterError
mismatch_error action =
    let e = new action_failed "Post-action state does not match the requested change" in
    if is_type_text action
    then with_suggestion
        "Some fields, often in Chromium and Electron apps, accept typed text without applying it. Read the field with 'get', then write the full intended value with 'set-value'."
        e
    else e

-- `verification_error`.
unfoldable pub verification_error : ActionResult → AdapterError → AdapterError
verification_error action_result e = record e {
  suggestion = some (
      unwrap_or e.suggestion
        "Inspect the returned state before deciding whether another action is needed.");
  disposition = unverified action_result.disposition;
}
  where
    unverified : DeliverySemantics → DeliverySemantics
    unverified DeliverySemantics.not_delivered = DeliverySemantics.not_delivered
    unverified _ = DeliverySemantics.delivered_unverified
