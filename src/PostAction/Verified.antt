-- ===== src/PostAction/Verified.antt =====
-- Verified delivery rests on the last observation.
use mathlib.Core.Path.{ap₂}
use agent_desktop.Prelude.{
  Bool, Bool-cases, Option, Result, ap, arith, err, false, inl, inr, none, ok, ok-injective, refl,
  some, true, ◌∙◌, ◌≡◌, ◌≢◌,
}
use agent_desktop.PostAction.Fulfilled.{Fulfilled, postcondition-Fulfilled}
use agent_desktop.PostAction.Settled.{ReadAt, settle-ReadAt}
use agent_desktop.Text.{Text}
use agent_desktop.Error.{AdapterError, DeliverySemantics}
use agent_desktop.Geometry.{F64}
use agent_desktop.Action.{Action, ActionRequest, requires_state_readback}
use agent_desktop.Actionability.Gates.{Arithmetic}
use agent_desktop.Deadline.{Deadline, capped}
use agent_desktop.PostAction.{
  ActionResult, LiveElement, matches_postcondition, mismatch_error, unverify_delivery,
  verification_error, with_unverified_delivery, with_verified_delivery,
}
use agent_desktop.PostAction.Execute.{
  ElementPort, conclude, execute_verified_action, expect_text, is_undelivered_error, mismatched,
  read_before, settle, settle_budget, settle_fuel, verify_execution,
}

module _ (arithmetic : Arithmetic) (parse_f64 : Text → Option F64) {W : Type 0}
    (port : ElementPort W) where
  abbrev pub Satisfied : Action → Option LiveElement → Option Text → LiveElement → Type 0
  Satisfied action before expected_text observed =
      matches_postcondition arithmetic parse_f64 action before expected_text observed ≡ some true

  never_verified :
      (d : DeliverySemantics) → unverify_delivery d ≢ DeliverySemantics.delivered_verified
  never_verified d h = ground arith

  conclude-verified :
      (action : Action) (before : Option LiveElement) (expected_text : Option Text)
      (execution : Result AdapterError ActionResult) (observed : Result AdapterError LiveElement)
      (r : ActionResult)
      → conclude arithmetic parse_f64 port action before expected_text execution observed ≡ ok r
      → r.disposition ≡ DeliverySemantics.delivered_verified
      → (element : LiveElement) × (observed ≡ ok element)
        × Satisfied action before expected_text element
  unfolding conclude
  conclude-verified action before expected_text (err e) observed r h v = cc h
  conclude-verified action before expected_text (ok first) (err e) r h v = cc h
  conclude-verified action before expected_text (ok first) (ok element) r h v =
      decide (matches_postcondition arithmetic parse_f64 action before expected_text element) refl h
    where
      decide :
          (verdict : Option Bool)
          → matches_postcondition arithmetic parse_f64 action before expected_text element ≡ verdict
          → ◌≡◌ {A = Result AdapterError ActionResult}
              (elim verdict [
                | none ↦
                    ok (with_unverified_delivery (record first { post_state = some element.state }))
                | some false ↦ err (verification_error first (mismatch_error action))
                | some true ↦
                    ok (with_verified_delivery (record first { post_state = some element.state }))
              ])
              (ok r)
          → (found : LiveElement) × (◌≡◌ {A = Result AdapterError LiveElement}
              (ok element)
              (ok found))
            × Satisfied action before expected_text found
      decide none e same =
          absurd
            (never_verified first.disposition (ap (λ x. x.disposition) (ok-injective same) ∙ v))
      decide (some false) e same = cc same
      decide (some true) e same = (element, refl, e)

  verify_execution-verified :
      (action : Action) (before : Option LiveElement) (expected_text : Option Text) (d : Deadline)
      (execution : Result AdapterError ActionResult) (w w' : W) (r : ActionResult)
      → verify_execution arithmetic parse_f64 port action before expected_text d execution w
        ≡ (ok r, w')
      → r.disposition ≡ DeliverySemantics.delivered_verified
      → (element : LiveElement) × ReadAt arithmetic parse_f64 port d (ok element, w')
        × Satisfied action before expected_text element
  unfolding verify_execution ReadAt
  verify_execution-verified action before expected_text d execution w w' r run v =
      let first = port.get_live_element d w in
      let cap = capped port.last d settle_budget (port.now first.1) in
      let settled =
        settle arithmetic parse_f64 port (settle_fuel arithmetic parse_f64 port)
          (mismatched arithmetic parse_f64 port action before expected_text execution) d cap first.0
          first.1 in
      let read =
        settle-ReadAt arithmetic parse_f64 port (settle_fuel arithmetic parse_f64 port)
          (mismatched arithmetic parse_f64 port action before expected_text execution) d cap first.0
          first.1 (w, refl) in
      elim (Bool-cases (is_undelivered_error execution)) [
        | inl stop ↦
            let done : execution ≡ ok r = ap (λ x. x.0) (rw stop at run) in
            cc (stop, ap is_undelivered_error done)
        | inr go ↦
            let ends = rw go at run in
            let (element, seen, fine) =
              conclude-verified action before expected_text execution settled.0 r
                (ap (λ x. x.0) ends) v in
            (element, (read.0, read.1 ∙ ap₂ (λ a b. (a, b)) seen (ap (λ x. x.1) ends)), fine)
      ]

  -- Where an action that is verified succeeds with delivery verified, the last read of the element,
  -- which ends the run, shows what the action asked for: a value that matches the one to be set, an
  -- empty value for a clear, the state to be checked, unchecked, expanded or collapsed; for a toggle,
  -- the opposite of the checked state that the adapter's first read returned; for typing, the value
  -- of that first read with the text inserted as `expected_insertion` does at the selection that was
  -- read next, which is none where a headed action had yet to focus the element or the adapter
  -- failed to tell it.
  pub execute_verified_action-verified :
      (request : ActionRequest) (d : Deadline) (w w' : W) (r : ActionResult)
      → requires_state_readback request.action ≡ true
      → execute_verified_action arithmetic parse_f64 port request d w ≡ (ok r, w')
      → r.disposition ≡ DeliverySemantics.delivered_verified
      → (element : LiveElement) × ReadAt arithmetic parse_f64 port d (ok element, w')
        × Fulfilled arithmetic parse_f64 port request request.action d w element
  unfolding execute_verified_action expect_text
  execute_verified_action-verified request d w w' r readback run v =
      let read = read_before arithmetic parse_f64 port request.action d w in
      let expected = expect_text arithmetic parse_f64 port request read.0 d read.1 in
      let executed = port.execute_action request expected.1 in
      let (element, last, fine) =
        verify_execution-verified request.action read.0 expected.0 d executed.0 executed.1 w' r
          (rw readback at run) v in
      (
        element,
        last,
        postcondition-Fulfilled arithmetic parse_f64 port request request.action d w element fine,
      )
