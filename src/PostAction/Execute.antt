-- ===== src/PostAction/Execute.antt =====
-- `execute_verified_action` of crates/core/src/post_action.rs.
use agent_desktop.Prelude.{
  Bool, Option, Result, err, false, if◌then◌else◌, is_ok, is_some_and, ltb, none, not, ok, some,
  suc, true, unwrap_or, zero, ℕ, ◌&&◌, ◌*◌, ◌||◌,
}
use agent_desktop.Text.{Text, codes}
use agent_desktop.Error.{AdapterError, DeliverySemantics}
use agent_desktop.Policy.{is_headed}
use agent_desktop.Capability.{has_state}
use agent_desktop.Action.{Action, ActionRequest, requires_state_readback, toggle, type_text}
use agent_desktop.Actionability.Gates.{Arithmetic}
use agent_desktop.Deadline.{Deadline, capped, millisecond, remaining}
use agent_desktop.Geometry.{F64}
use agent_desktop.PostAction.{
  ActionResult, LiveElement, expected_insertion, matches_postcondition, mismatch_error,
  verification_error, with_unverified_delivery, with_verified_delivery,
}

-- The clock, and the calls of the adapter on the resolved element.
pub record ElementPort (W : Type 0) : Type 0 where
  pub last : ℕ
  pub now : W → ℕ
  pub sleep : ℕ → W → W
  pub get_live_element : Deadline → W → Result AdapterError LiveElement × W
  pub get_text_selection : Deadline → W → Result AdapterError (Option (ℕ × ℕ)) × W
  pub execute_action : ActionRequest → W → Result AdapterError ActionResult × W

-- `Result::ok`.
abbrev pub ok_option : {A : Type 0} → Result AdapterError A → Option A
ok_option (ok a) = some a
ok_option (err e) = none

abbrev pub reads_before : Action → Bool
reads_before (type_text t) = true
reads_before toggle = true
reads_before _ = false

abbrev pub typed_text : Action → Option Text
typed_text (type_text t) = some t
typed_text _ = none

abbrev pub is_not_delivered : DeliverySemantics → Bool
is_not_delivered DeliverySemantics.not_delivered = true
is_not_delivered _ = false

abbrev pub is_undelivered_error : {A : Type 0} → Result AdapterError A → Bool
is_undelivered_error (ok a) = false
is_undelivered_error (err e) = is_not_delivered e.disposition

abbrev pub is_some_false : Option Bool → Bool
is_some_false o = is_some_and o not

abbrev pub settle_step : ℕ
settle_step = 50 * millisecond

abbrev pub settle_budget : ℕ
settle_budget = 400 * millisecond

module _ (arithmetic : Arithmetic) (parse_f64 : Text → Option F64) {W : Type 0}
    (port : ElementPort W) where
  unfoldable pub read_before : Action → Deadline → W → Option LiveElement × W
  read_before action d w =
      let (live, after_read) = port.get_live_element d w in
      if reads_before action then (ok_option live, after_read) else (none, w)

  unfoldable pub read_selection : ActionRequest → LiveElement → Deadline → W → Option (ℕ × ℕ) × W
  unfolding has_state is_headed
  read_selection request before d w =
      let (selection, after_read) = port.get_text_selection d w in
      if not (is_headed request.policy) || has_state before.state.states (codes "focused")
      then (unwrap_or (ok_option selection) none, after_read)
      else (none, w)

  -- `match (&action, &before)`.
  unfoldable pub expect_typed :
      ActionRequest → Option Text → Option LiveElement → Deadline → W → Option Text × W
  unfolding read_selection expected_insertion
  expect_typed request none before d w = (none, w)
  expect_typed request (some text) none d w = (none, w)
  expect_typed request (some text) (some before) d w = elim before.state.value [
    | none ↦ (none, w)
    | some value ↦
        let (selection, after_read) = read_selection request before d w in
        (expected_insertion value text selection, after_read)
  ]

  unfoldable pub expect_text : ActionRequest → Option LiveElement → Deadline → W → Option Text × W
  unfolding expect_typed
  expect_text request before d w = expect_typed request (typed_text request.action) before d w

  -- The condition of the settling loop, but for the time that is left.
  unfoldable pub mismatched :
      Action
      → Option LiveElement
      → Option Text
      → Result AdapterError ActionResult
      → Result AdapterError LiveElement
      → Bool
  unfolding matches_postcondition
  mismatched action before expected_text execution (err e) = false
  mismatched action before expected_text execution (ok observed) =
      is_ok execution
      && is_some_false
          (matches_postcondition arithmetic parse_f64 action before expected_text observed)

  unfoldable pub keeps_settling :
      (Result AdapterError LiveElement → Bool)
      → Deadline
      → Result AdapterError LiveElement
      → W
      → Bool
  unfolding remaining
  keeps_settling test settle_deadline observed w =
      test observed && ltb settle_step (remaining settle_deadline (port.now w))

  -- The loop that sleeps and reads again, on fuel.
  unfoldable pub settle :
      ℕ
      → (Result AdapterError LiveElement → Bool)
      → Deadline
      → Deadline
      → Result AdapterError LiveElement
      → W
      → Result AdapterError LiveElement × W
  unfolding keeps_settling
  settle zero test d settle_deadline observed w = (observed, w)
  settle (suc fuel) test d settle_deadline observed w =
      elim (keeps_settling test settle_deadline observed w) [
        | false ↦ (observed, w)
        | true ↦
            let (again, after_read) = port.get_live_element d (port.sleep settle_step w) in
            settle fuel test d settle_deadline again after_read
      ]

  -- The end, on the last observation.
  unfoldable pub conclude :
      Action
      → Option LiveElement
      → Option Text
      → Result AdapterError ActionResult
      → Result AdapterError LiveElement
      → Result AdapterError ActionResult
  unfolding matches_postcondition verification_error mismatch_error
  conclude action before expected_text (err e) observed = err e
  conclude action before expected_text (ok r) (err e) = err (verification_error r e)
  conclude action before expected_text (ok r) (ok observed) =
      elim (matches_postcondition arithmetic parse_f64 action before expected_text observed) [
        | none ↦ ok (with_unverified_delivery (record r { post_state = some observed.state }))
        | some false ↦ err (verification_error r (mismatch_error action))
        | some true ↦ ok (with_verified_delivery (record r { post_state = some observed.state }))
      ]

  -- 400 ms hold at most 8 rounds of 50 ms.
  abbrev pub settle_fuel : ℕ
  settle_fuel = 8

  unfoldable pub verify_execution :
      Action
      → Option LiveElement
      → Option Text
      → Deadline
      → Result AdapterError ActionResult
      → W
      → Result AdapterError ActionResult × W
  unfolding settle mismatched conclude capped
  verify_execution action before expected_text d execution w =
      let (first, after_read) = port.get_live_element d w in
      let settle_deadline = capped port.last d settle_budget (port.now after_read) in
      let (observed, settled) =
        settle settle_fuel (mismatched action before expected_text execution) d settle_deadline
          first after_read in
      if is_undelivered_error execution
      then (execution, w)
      else (conclude action before expected_text execution observed, settled)

  -- `d` is the deadline of the lease.
  unfoldable pub execute_verified_action :
      ActionRequest → Deadline → W → Result AdapterError ActionResult × W
  unfolding read_before expect_text verify_execution requires_state_readback
  execute_verified_action request d w =
      let (before, read) = read_before request.action d w in
      let (expected_text, selected) = expect_text request before d read in
      let (execution, executed) = port.execute_action request selected in
      if not (requires_state_readback request.action)
      then port.execute_action request w
      else verify_execution request.action before expected_text d execution executed
