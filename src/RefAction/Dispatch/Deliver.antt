-- ===== src/RefAction/Dispatch/Deliver.antt =====
-- The second half of `dispatch_resolved` of ref_action.rs, and the wait and the lease around it:
-- `execute_single_shot` and `execute_with_deadline`. A lease has the deadline that it was asked with.
use agent_desktop.Prelude.{Option, Result, err, if◌then◌else◌, none, ok, some, ℕ}
use agent_desktop.Text.{Text}
use agent_desktop.Policy.{headless, requires_focus}
use agent_desktop.Geometry.{F64, Rect}
use agent_desktop.RefEntry.{RefEntry}
use agent_desktop.Action.{ActionRequest, headed_requirement}
use agent_desktop.Actionability.{is_semantic}
use agent_desktop.Actionability.Gates.{Arithmetic}
use agent_desktop.Actionability.Check.{ActionabilityReport}
use agent_desktop.Deadline.{Deadline, is_expired, remaining_ms, timeout_error}
use agent_desktop.PostAction.{ActionResult}
use agent_desktop.PostAction.Execute.{execute_verified_action}
use agent_desktop.RefAction.{ActionError, RefActionPollState, default_poll_state}
use agent_desktop.RefAction.Poll.{Platform, execute_poll_loop}
use agent_desktop.RefAction.Dispatch.{
  ActionPort, and_then, map_error, plain_error, plain_result, known_process_instance,
  trace_error_after_delivery, unknown_process, waits,
}
use agent_desktop.RefAction.Dispatch.Target.{prepare}

module _ (hash : Rect → ℕ) (arithmetic : Arithmetic) (parse_f64 : Text → Option F64) {W : Type 0}
    {H : Type 0} (port : ActionPort W H) (entry : RefEntry) (d : Deadline) where
  -- The request as it is delivered.
  unfoldable pub deliverable : ActionRequest → Text → ActionabilityReport → ActionRequest
  deliverable request instance report = record request {
    policy = if is_semantic report.pointer_delivery then headless else request.policy;
    verified_point = report.verified_point;
    expected_process = some (record { pid = entry.process.pid; process_instance = some instance });
  }

  -- The dispatch on a target that is ready.
  unfoldable pub deliver :
      ActionRequest → Text → H × ActionabilityReport → W → Result ActionError ActionResult × W
  unfolding deliverable execute_verified_action
  deliver request instance (handle, report) w = and_then (port.trace_start w) (λ u traced.
      let (action_result, executed) =
        execute_verified_action arithmetic parse_f64 (port.element handle)
          (deliverable request instance report) d traced in
      and_then (plain_result action_result, executed)
        (λ done delivered.
          and_then (map_error trace_error_after_delivery (port.trace_done delivered))
            (λ v ended. (ok done, ended))))

  abbrev pub dispatch_to : ℕ → ActionRequest → Option Text → W → Result ActionError ActionResult × W
  dispatch_to fuel request none w = (err unknown_process, w)
  dispatch_to fuel request (some instance) w =
      and_then (prepare hash arithmetic parse_f64 port entry d fuel request w)
        (deliver request instance)

  unfoldable pub dispatch_resolved : ℕ → ActionRequest → W → Result ActionError ActionResult × W
  unfolding prepare deliver known_process_instance
  dispatch_resolved fuel request w = dispatch_to fuel request (known_process_instance entry) w

  -- `execute_single_shot`.
  unfoldable pub execute_single_shot : ℕ → ActionRequest → W → Result ActionError ActionResult × W
  unfolding dispatch_resolved headed_requirement requires_focus
  execute_single_shot fuel request w =
      if requires_focus (headed_requirement request)
      then and_then (port.focus_entry_window w)
          (λ u focused. dispatch_resolved fuel request focused)
      else dispatch_resolved fuel request w

  -- The poll loop's view of the adapter.
  unfoldable pub poll_platform : ActionRequest → Platform W H
  poll_platform request = record {
    last = port.last;
    now = port.now;
    sleep = port.sleep;
    resolve_element_strict = port.resolve_element_strict;
    preflight = λ handle x w.
        and_then (port.check_actionability handle request x w) (λ report seen. (ok tt, seen));
  }

  -- The wait before the lease: `none` where the fuel of the poll loop is used up.
  unfoldable pub wait_for_target :
      ℕ → ActionRequest → W → Option (Result ActionError RefActionPollState × W)
  unfolding execute_poll_loop poll_platform
  wait_for_target rounds request w =
      if waits request
      then execute_poll_loop (poll_platform request) rounds request d default_poll_state w
      else some (ok default_poll_state, w)

  unfoldable pub under_lease : ℕ → ActionRequest → W → Result ActionError ActionResult × W
  unfolding execute_single_shot is_expired remaining_ms
  under_lease fuel request w = and_then (port.acquire_interaction_lease d w) (λ lease held.
      if is_expired d (port.now held)
      then (err (plain_error timeout_error), held)
      else execute_single_shot fuel
          (if waits request
            then record request { timeout_ms = some (remaining_ms d (port.now held)) }
            else request)
          held)

  unfoldable pub execute_with_deadline :
      ℕ → ℕ → ActionRequest → W → Option (Result ActionError ActionResult × W)
  unfolding wait_for_target under_lease
  execute_with_deadline rounds fuel request w = elim (wait_for_target rounds request w) [
    | none ↦ none
    | some (waited, w') ↦
        some (and_then (waited, w') (λ state ready. under_lease fuel request ready))
  ]
