-- ===== src/RefAction/Preflight.antt =====
-- `preflight_resolved` of crates/core/src/ref_action.rs with actionability/live.rs and evaluate.rs:
-- the check of the live element before a ref action, its traces, and the details of its errors. The
-- hit tests of one check are the adapter's answers in their order.
pub mod Quiet
pub mod RetrySafety
use agent_desktop.Prelude.{
  Bool, all, is_some, ◌&&◌, List, Option, Result, any, err, false, if◌then◌else◌, is_ok, map, none,
  not, ok, refl, some, true, ℕ, ◌++◌, ◌>>=◌, ◌||◌, ◌≡◌, [], inl, inr, Bool-cases,
}
use agent_desktop.Text.{Text, codes, text_eq}
use agent_desktop.Error.{AdapterError}
use agent_desktop.Geometry.{F64, Rect, bounds_hash}
use agent_desktop.RefEntry.{RefEntry}
use agent_desktop.RefIdentity.{IdentityMatch, identity_match, unknown_identity}
use agent_desktop.Action.{requires_hit_test, ActionRequest}
use agent_desktop.Actionability.{
  ActionabilityCheck, ActionabilityEvidence, ActionabilityStatus, StabilityExpectation, failed,
  passed, is_physical, pointer_delivery_of, requirements_for, unknown_status,
}
use agent_desktop.Actionability.Gates.{Arithmetic}
use agent_desktop.Actionability.Check.{
  ActionabilityReport, HitTest, check_with_stability, finish, from_checks, gate_checks, hit_checks,
  is_pass, presentation_point,
}
use agent_desktop.Deadline.{Deadline}
use agent_desktop.LiveCheck.{
  check_live_with_stability, evidence_of, is_unsupported, validate_live_identity, value_field,
}
use agent_desktop.PostAction.{LiveElement}
use agent_desktop.RefAction.{ActionError, CheckDetail, Details, no_details}
use agent_desktop.RefAction.Poll.{Platform}

-- The adapter and the traces, whose errors are as `into_adapter_error` makes them. `hit_tested` is the
-- world after the hit tests of a check, where it makes any, and `hit_test_details` the details of the
-- error that one of them returns.
pub record LiveAdapter (W : Type 0) (H : Type 0) : Type 0 where
  pub last : ℕ
  pub now : W → ℕ
  pub sleep : ℕ → W → W
  pub resolve_element_strict : Deadline → W → Result ActionError H × W
  pub get_live_element : H → Deadline → W → Result ActionError LiveElement × W
  pub hit_test : H → Deadline → W → HitTest
  pub hit_test_details : H → Deadline → W → Option Details
  pub hit_tested : H → Deadline → W → W
  pub trace_start : W → Result ActionError (Unit {0}) × W
  pub trace_error : ActionError → W → W
  pub trace_ok : ActionabilityReport → W → Result ActionError (Unit {0}) × W

abbrev pub without_details : {A : Type 0} → Result ActionError A → Result AdapterError A
without_details (ok a) = ok a
without_details (err e) = err e.error

-- The status as it is serialized.
abbrev pub status_text : ActionabilityStatus → Text
status_text passed = codes "pass"
status_text failed = codes "fail"
status_text unknown_status = codes "unknown"

abbrev pub check_detail : ActionabilityCheck → CheckDetail
check_detail c = record { check = some c.check_name; status = some (status_text c.status) }

module _ (parse_f64 : Text → Option F64) (hash : Rect → ℕ) (arithmetic : Arithmetic) where
  -- The report that `check_with_stability` finishes with.
  unfoldable pub reported :
      StabilityExpectation
      → ActionabilityEvidence
      → ActionRequest
      → HitTest
      → Result AdapterError ActionabilityReport
  unfolding gate_checks hit_checks
  reported expectation evidence request hit_test =
      let delivery =
        pointer_delivery_of (requirements_for request.action) request.action
          evidence.available_actions request.policy in
      let checks = gate_checks hash arithmetic expectation evidence request delivery in
      let presentation = presentation_point hash arithmetic evidence.bounds in
      if any (λ c. not (is_pass c.status)) checks
      then ok (from_checks checks none presentation evidence.bounds delivery)
      else hit_checks hash arithmetic evidence request (some hit_test) delivery >>= λ (hit, point).
          ok (from_checks (checks ++ hit) point presentation evidence.bounds delivery)

  -- A check makes hit tests where its gates pass, the pointer is used, and there are bounds.
  unfoldable pub makes_hit_tests :
      StabilityExpectation → ActionabilityEvidence → ActionRequest → Bool
  unfolding gate_checks requires_hit_test
  makes_hit_tests expectation evidence request =
      let delivery =
        pointer_delivery_of (requirements_for request.action) request.action
          evidence.available_actions request.policy in
      all (λ c. is_pass c.status)
        (gate_checks hash arithmetic expectation evidence request delivery)
      && is_physical delivery
      && requires_hit_test request.action
      && is_some evidence.bounds

  abbrev pub bounds_hash_of : Option Rect → Option ℕ
  bounds_hash_of none = none
  bounds_hash_of (some bounds) = bounds_hash hash bounds

  -- The details that `finish` gives a refusal.
  abbrev pub report_details : ActionabilityEvidence → ActionabilityReport → Details
  report_details evidence report = record no_details {
    checks = some (map check_detail report.checks);
    observed_bounds_hash = bounds_hash_of evidence.bounds;
  }

  abbrev pub match_details : IdentityMatch → Details
  match_details unknown_identity = record no_details {
    kind = some (codes "live_identity_evidence");
    complete = some false;
  }
  match_details _ = no_details

  -- The details that `validate_live_identity` gives.
  unfoldable pub identity_details : RefEntry → LiveElement → Details
  unfolding text_eq identity_match
  identity_details entry live =
      if text_eq live.state.role (codes "unknown")
        || not (text_eq live.state.role entry.identity.role)
      then no_details
      else match_details (
          identity_match parse_f64 entry live.identity.name (value_field live.state.value)
            live.identity.description live.identity.identifiers)

  -- The details of the error of `check_live_with_stability`.
  unfoldable pub refusal_details :
      RefEntry
      → Result ActionError LiveElement
      → HitTest
      → Option Details
      → ActionRequest
      → StabilityExpectation
      → Option Details
  unfolding reported identity_details validate_live_identity
  refusal_details entry (err e) hit_test hit_details request x =
      if is_unsupported e.error.code then some no_details else e.details
  refusal_details entry (ok live) hit_test hit_details request x =
      if not (is_ok (validate_live_identity parse_f64 entry live))
      then some (identity_details entry live)
      else elim (reported x (evidence_of parse_f64 live) request hit_test) [
        | ok report ↦ some (report_details (evidence_of parse_f64 live) report)
        | err e ↦ hit_details
      ]

  module _ {W : Type 0} {H : Type 0} (adapter : LiveAdapter W H) (entry : RefEntry)
      (request : ActionRequest) (d : Deadline) where
    -- The world after the check of what was read: hit tests are made where the element is the one of
    -- the entry and has passed its gates.
    unfoldable pub after_hits : Result ActionError LiveElement → H → StabilityExpectation → W → W
    unfolding validate_live_identity makes_hit_tests
    after_hits (err e) handle x w = w
    after_hits (ok live) handle x w =
        if is_ok (validate_live_identity parse_f64 entry live)
          && makes_hit_tests x (evidence_of parse_f64 live) request
        then adapter.hit_tested handle d w
        else w

    -- After the live read: the outcome of the check, and its trace.
    unfoldable pub traced_outcome :
        Option Details
        → Result AdapterError ActionabilityReport
        → W
        → Result ActionError (Unit {0}) × W
    traced_outcome details (ok report) w = adapter.trace_ok report w
    traced_outcome details (err e) w =
        let refused : ActionError = record { error = e; details = details } in
        (err refused, adapter.trace_error refused w)

    unfoldable pub checked_after_start :
        H → StabilityExpectation → W → Result ActionError (Unit {0}) × W
    unfolding traced_outcome refusal_details after_hits check_live_with_stability
    checked_after_start handle x w =
        let (live, read) = adapter.get_live_element handle d w in
        let hits = adapter.hit_test handle d read in
        traced_outcome
          (refusal_details entry live hits (adapter.hit_test_details handle d read) request x)
          (check_live_with_stability parse_f64 hash arithmetic entry (without_details live) hits
            request x)
          (after_hits live handle x read)

    -- `check_actionability_with_trace`.
    unfoldable pub preflight_resolved :
        H → StabilityExpectation → W → Result ActionError (Unit {0}) × W
    unfolding checked_after_start
    preflight_resolved handle x w =
        let (started, ready) = adapter.trace_start w in
        elim started [ err e ↦ (err e, ready) | ok _ ↦ checked_after_start handle x ready ]

    -- What the poll loop runs on.
    abbrev pub live_platform : Platform W H
    live_platform = record {
      last = adapter.last;
      now = adapter.now;
      sleep = adapter.sleep;
      resolve_element_strict = adapter.resolve_element_strict;
      preflight = preflight_resolved;
    }
