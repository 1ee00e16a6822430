-- ===== src/PostAction/Once.antt =====
-- The native action is executed once.
use agent_desktop.Prelude.{
  Bool, Bool-cases, Option, Option-cases, Result, arith, inl, inr, none, refl, some, suc, zero, ℕ,
  ◌+◌, ◌∙◌, ◌≡◌,
}
use agent_desktop.Text.{Text}
use agent_desktop.Error.{AdapterError}
use agent_desktop.Geometry.{F64}
use agent_desktop.Action.{Action, ActionRequest, requires_state_readback}
use agent_desktop.Actionability.Gates.{Arithmetic}
use agent_desktop.Deadline.{Deadline, capped}
use agent_desktop.PostAction.{ActionResult, LiveElement}
use agent_desktop.PostAction.Execute.{
  ElementPort, execute_verified_action, expect_text, expect_typed, is_undelivered_error,
  keeps_settling, mismatched, read_before, read_selection, settle, settle_budget, settle_fuel,
  settle_step, typed_text, verify_execution,
}

-- `performed` counts the native actions: the reads and the sleeps perform none, and a call of
-- `execute_action` is one.
pub record Counts {W : Type 0} (port : ElementPort W) : Type 0 where
  pub performed : W → ℕ
  pub sleeps : (n : ℕ) (w : W) → performed (port.sleep n w) ≡ performed w
  pub reads : (d : Deadline) (w : W) → performed (port.get_live_element d w).1 ≡ performed w
  pub selects : (d : Deadline) (w : W) → performed (port.get_text_selection d w).1 ≡ performed w
  pub executes :
      (request : ActionRequest) (w : W)
      → performed (port.execute_action request w).1 ≡ performed w + 1

module _ (arithmetic : Arithmetic) (parse_f64 : Text → Option F64) {W : Type 0}
    (port : ElementPort W) (counts : Counts port) where
  read_before-performed :
      (action : Action) (d : Deadline) (w : W)
      → counts.performed (read_before arithmetic parse_f64 port action d w).1 ≡ counts.performed w
  unfolding read_before
  read_before-performed action d w = ground (arith, counts.reads d w)

  read_selection-performed :
      (request : ActionRequest) (before : LiveElement) (d : Deadline) (w : W)
      → counts.performed (read_selection arithmetic parse_f64 port request before d w).1
        ≡ counts.performed w
  unfolding read_selection
  read_selection-performed request before d w = ground (arith, counts.selects d w)

  expect_typed-performed :
      (request : ActionRequest) (typed : Option Text) (before : Option LiveElement) (d : Deadline)
      (w : W)
      → counts.performed (expect_typed arithmetic parse_f64 port request typed before d w).1
        ≡ counts.performed w
  unfolding expect_typed
  expect_typed-performed request none before d w = refl
  expect_typed-performed request (some text) none d w = refl
  expect_typed-performed request (some text) (some before) d w =
      let read = read_selection-performed request before d w in
      elim (Option-cases before.state.value) [
        | inl gone ↦ rw gone refl
        | inr (value, there) ↦ rw there read
      ]

  settle-performed :
      (fuel : ℕ) (test : Result AdapterError LiveElement → Bool) (d settle_deadline : Deadline)
      (observed : Result AdapterError LiveElement) (w : W)
      → counts.performed (settle arithmetic parse_f64 port fuel test d settle_deadline observed w).1
        ≡ counts.performed w
  unfolding settle
  settle-performed zero test d settle_deadline observed w = refl
  settle-performed (suc fuel) test d settle_deadline observed w =
      let slept = port.sleep settle_step w in
      let again = port.get_live_element d slept in
      let rest = settle-performed fuel test d settle_deadline again.0 again.1 in
      let read = counts.reads d slept in
      let pause = counts.sleeps settle_step w in
      elim (Bool-cases (keeps_settling arithmetic parse_f64 port test settle_deadline observed w)) [
        | inl more ↦ rw (more, settle) (rest ∙ read ∙ pause)
        | inr over ↦ rw (over, settle) refl
      ]

  verify_execution-performed :
      (action : Action) (before : Option LiveElement) (expected_text : Option Text) (d : Deadline)
      (execution : Result AdapterError ActionResult) (w : W)
      → counts.performed
          (verify_execution arithmetic parse_f64 port action before expected_text d execution w).1
        ≡ counts.performed w
  unfolding verify_execution
  verify_execution-performed action before expected_text d execution w =
      let first = port.get_live_element d w in
      let cap = capped port.last d settle_budget (port.now first.1) in
      let rest =
        settle-performed (settle_fuel arithmetic parse_f64 port)
          (mismatched arithmetic parse_f64 port action before expected_text execution) d cap first.0
          first.1 in
      elim (Bool-cases (is_undelivered_error execution)) [
        | inl stop ↦ rw stop refl
        | inr go ↦ rw go (rest ∙ counts.reads d w)
      ]

  -- An action on an element, verified or not, successful or not, calls the adapter's
  -- `execute_action` exactly once.
  pub execute_verified_action-once :
      (request : ActionRequest) (d : Deadline) (w : W)
      → counts.performed (execute_verified_action arithmetic parse_f64 port request d w).1
        ≡ counts.performed w + 1
  unfolding execute_verified_action expect_text
  execute_verified_action-once request d w =
      let read = read_before arithmetic parse_f64 port request.action d w in
      let selected = expect_text arithmetic parse_f64 port request read.0 d read.1 in
      let executed = port.execute_action request selected.1 in
      let before = read_before-performed request.action d w in
      let text = expect_typed-performed request (typed_text request.action) read.0 d read.1 in
      let act = counts.executes request selected.1 in
      let rest =
        verify_execution-performed request.action read.0 selected.0 d executed.0 executed.1 in
      elim (Bool-cases (requires_state_readback request.action)) [
        | inl verified ↦ rw verified (omega (arith, rest, act, text, before))
        | inr plain ↦ rw plain (counts.executes request w)
      ]
