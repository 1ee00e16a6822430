-- ===== src/RefAction/Dispatch.antt =====
-- crates/core/src/ref_action.rs, ref_action_single.rs and ref_action_wait.rs: the dispatch of a ref
-- action, and the wait and the lease before it. The world `W` is what the adapter, the traces and the
-- clock are about. The overlay of the presentation, the artifacts, the surfaces and the metrics, which
-- do not bear on the result, are left out.
pub mod Target
pub mod Deliver
pub mod Reads
pub mod Delivered
pub mod AtMostOnce
use agent_desktop.Prelude.{
  Bool, Option, Result, err, false, if◌then◌else◌, is_empty, is_some_and, ltb, none, ok, some,
  unwrap_or, ℕ, ◌*◌, ◌==◌,
}
use agent_desktop.Text.{Text}
use agent_desktop.Error.{
  AdapterError, DeliverySemantics, delivered_unverified, delivery_uncertain, new, not_delivered,
  stale_ref, unknown, with_disposition, with_suggestion,
}
use agent_desktop.Geometry.{Rect, bounds_hash}
use agent_desktop.RefEntry.{RefEntry}
use agent_desktop.Action.{ActionRequest}
use agent_desktop.Actionability.{StabilityExpectation}
use agent_desktop.Actionability.Check.{ActionabilityReport}
use agent_desktop.Deadline.{Deadline, after, millisecond, standard}
use agent_desktop.PostAction.Execute.{ElementPort}
use agent_desktop.RefAction.{ActionError, no_details}

-- What the dispatch calls: the adapter, the check of a live element, and the traces.
pub record ActionPort (W : Type 0) (H : Type 0) : Type 0 where
  pub last : ℕ
  pub now : W → ℕ
  pub sleep : ℕ → W → W
  pub resolve_element_strict : Deadline → W → Result ActionError H × W
  pub check_actionability :
      H → ActionRequest → StabilityExpectation → W → Result ActionError ActionabilityReport × W
  pub get_element_bounds : H → Deadline → W → Result ActionError (Option Rect) × W
  pub scroll_into_view : H → W → Result ActionError (Unit {0}) × W
  pub acquire_interaction_lease : Deadline → W → Result ActionError (Unit {0}) × W
  pub focus_entry_window : W → Result ActionError (Unit {0}) × W
  pub trace_start : W → Result ActionError (Unit {0}) × W
  pub trace_done : W → Result ActionError (Unit {0}) × W
  pub element : H → ElementPort W

-- The `?` after a call that changes the world.
abbrev pub and_then :
    {W A B : Type 0}
    → Result ActionError A × W
    → (A → W → Result ActionError B × W)
    → Result ActionError B × W
and_then (ok a, w) next = next a w
and_then (err e, w) next = (err e, w)

abbrev pub map_error :
    {W A : Type 0}
    → (ActionError → ActionError)
    → Result ActionError A × W
    → Result ActionError A × W
map_error f (ok a, w) = (ok a, w)
map_error f (err e, w) = (err (f e), w)

abbrev pub plain_error : AdapterError → ActionError
plain_error e = record { error = e; details = none }

abbrev pub plain_result : {A : Type 0} → Result AdapterError A → Result ActionError A
plain_result (ok a) = ok a
plain_result (err e) = err (plain_error e)

-- `after_scroll`.
abbrev pub scrolled : DeliverySemantics → DeliverySemantics
scrolled DeliverySemantics.not_delivered = DeliverySemantics.delivery_uncertain
scrolled DeliverySemantics.unknown = DeliverySemantics.delivery_uncertain
scrolled d = d

unfoldable pub after_scroll : ActionError → ActionError
after_scroll e = record {
  error = record e.error { disposition = scrolled e.error.disposition };
  details = some (unwrap_or e.details no_details);
}

-- `trace_error_after_delivery`.
abbrev pub trace_error_after_delivery : ActionError → ActionError
trace_error_after_delivery e = record e {
  error = with_disposition DeliverySemantics.delivered_unverified e.error;
}

-- `StabilityExpectation::permissive` and `strict`.
abbrev pub permissive : Option ℕ → StabilityExpectation
permissive bounds_hash = record {
  bounds_hash = bounds_hash;
  bounds = none;
  strict = false;
  samples = 1;
  span_ms = 0;
}

abbrev pub sample_interval : ℕ
sample_interval = 17 * millisecond

-- `operation_deadline`.
unfoldable pub operation_deadline :
    ℕ → Option Deadline → ℕ → ActionRequest → Result AdapterError Deadline
unfolding standard after
operation_deadline last inherited now request = elim request.timeout_ms [
  | none ↦ standard last inherited now
  | some timeout_ms ↦
      if timeout_ms == 0 then standard last inherited now else after last inherited now timeout_ms
]

abbrev pub waits : ActionRequest → Bool
waits request = is_some_and request.timeout_ms (λ timeout_ms. ltb 0 timeout_ms)

unfoldable pub known_process_instance : RefEntry → Option Text
known_process_instance entry = elim entry.process.process_instance [
  | none ↦ none
  | some instance ↦ if is_empty instance then none else some instance
]

abbrev pub unknown_process : ActionError
unknown_process = plain_error (
    with_disposition DeliverySemantics.not_delivered (
      with_suggestion
        "Re-run a snapshot to obtain fresh refs, then retry with the new ref (CLI: snapshot [--skeleton]; FFI: ad_snapshot then ad_execute_by_ref with the returned snapshot_id)"
        (new stale_ref "target process instance is unavailable not found in current RefMap")))
