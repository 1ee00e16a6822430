-- ===== src/RefAction/Dispatch/Target.antt =====
-- `stable_preflight` of ref_action.rs, and the first half of `dispatch_resolved`: the target is
-- resolved and checked, after a scroll where it is not visible.
use agent_desktop.Prelude.{
  Bool, Option, Result, err, false, if◌then◌else◌, none, not, ok, some, suc, true, zero, ℕ, ◌-◌,
  ◌/◌, ◌||◌,
}
use agent_desktop.Text.{Text}
use agent_desktop.Error.{AdapterError, DeliverySemantics, with_disposition}
use agent_desktop.Geometry.{F64, Rect, bounds_hash}
use agent_desktop.RefEntry.{RefEntry}
use agent_desktop.Action.{ActionRequest}
use agent_desktop.Actionability.{StabilityExpectation, is_semantic, requirements_for}
use agent_desktop.Actionability.Gates.{Arithmetic, StabilitySampler, new_sampler, observe}
use agent_desktop.Actionability.Check.{ActionabilityReport}
use agent_desktop.Deadline.{Deadline, max_u64, millisecond, min, remaining_slice, timeout_error}
use agent_desktop.RefAction.{
  ActionError, mark_pre_dispatch_resolution_failure, only_stability_pending,
  should_scroll_after_preflight,
}
use agent_desktop.RefAction.Dispatch.{
  ActionPort, after_scroll, and_then, map_error, permissive, plain_error, sample_interval,
}

module _ (hash : Rect → ℕ) (arithmetic : Arithmetic) (parse_f64 : Text → Option F64) {W : Type 0}
    {H : Type 0} (port : ActionPort W H) (entry : RefEntry) (d : Deadline) where
  unfoldable pub strict_of : StabilitySampler hash arithmetic → ℕ → StabilityExpectation
  strict_of s elapsed = record {
    bounds_hash = elim s.previous [ none ↦ none | some b ↦ bounds_hash hash b ];
    bounds = s.previous;
    strict = true;
    samples = s.consecutive;
    span_ms = min ((elapsed - s.stable_since) / millisecond) max_u64;
  }

  -- What follows a sample that is not yet stable: the error of a deadline that has passed, or a sleep.
  abbrev pub pause_for : Result AdapterError ℕ → W → Result ActionError (Unit {0}) × W
  pause_for (err e) w = (err (plain_error (with_disposition DeliverySemantics.not_delivered e)), w)
  pause_for (ok sleep) w = (ok tt, port.sleep sleep w)

  -- A sample has been taken; `rest` is the loop from the next one on.
  abbrev pub after_sample :
      (StabilitySampler hash arithmetic → W → Result ActionError ActionabilityReport × W)
      → H
      → ActionRequest
      → ℕ
      → Bool
      → StabilitySampler hash arithmetic
      → W
      → Result ActionError ActionabilityReport × W
  after_sample rest handle request elapsed true s w =
      port.check_actionability handle request (strict_of s elapsed) w
  after_sample rest handle request elapsed false s w =
      and_then (pause_for (remaining_slice d sample_interval (port.now w)) w)
        (λ u slept. rest s slept)

  -- The loop of `stable_preflight`, on fuel.
  unfoldable pub sample_until_stable :
      ℕ
      → H
      → ActionRequest
      → ℕ
      → StabilitySampler hash arithmetic
      → W
      → Result ActionError ActionabilityReport × W
  unfolding strict_of observe remaining_slice
  sample_until_stable zero handle request started s w = (err (plain_error timeout_error), w)
  sample_until_stable (suc fuel) handle request started s w =
      and_then (port.get_element_bounds handle d w) (λ bounds read.
        let elapsed = port.now read - started in
        let (stable, s') = observe hash arithmetic bounds elapsed s in
        after_sample (sample_until_stable fuel handle request started) handle request elapsed stable
          s' read)

  -- The first check decides, or leaves it to the samples.
  unfoldable pub first_check :
      ActionRequest
      → Result ActionError ActionabilityReport × W
      → Result ActionError ActionabilityReport × W
      → Result ActionError ActionabilityReport × W
  unfolding only_stability_pending requirements_for
  first_check request (ok report, seen) sampled =
      if not (requirements_for request.action).stable || is_semantic report.pointer_delivery
      then (ok report, seen)
      else sampled
  first_check request (err e, seen) sampled =
      if only_stability_pending e then sampled else (err e, seen)

  unfoldable pub stable_preflight :
      ℕ → H → ActionRequest → W → Result ActionError ActionabilityReport × W
  unfolding sample_until_stable first_check
  stable_preflight fuel handle request w =
      let (first, seen) =
        port.check_actionability handle request (permissive entry.geometry.bounds_hash) w in
      first_check request (first, seen)
        (sample_until_stable fuel handle request (port.now seen) (new_sampler hash arithmetic) seen)

  -- A preflight that fails because the target is not visible is made again after a scroll.
  unfoldable pub or_scroll :
      ℕ
      → ActionRequest
      → H
      → Result ActionError ActionabilityReport × W
      → Result ActionError (H × ActionabilityReport) × W
  unfolding stable_preflight should_scroll_after_preflight after_scroll
  or_scroll fuel request handle (ok report, seen) = (ok (handle, report), seen)
  or_scroll fuel request handle (err e, seen) =
      if not (should_scroll_after_preflight request e)
      then (err e, seen)
      else and_then (port.scroll_into_view handle seen) (λ u moved.
        and_then (map_error after_scroll (port.resolve_element_strict d moved)) (λ again found.
          and_then (map_error after_scroll (stable_preflight fuel again request found))
            (λ report settled. (ok (again, report), settled))))

  -- The resolved handle, and the preflight on it.
  unfoldable pub prepare : ℕ → ActionRequest → W → Result ActionError (H × ActionabilityReport) × W
  unfolding or_scroll mark_pre_dispatch_resolution_failure
  prepare fuel request w =
      and_then (map_error mark_pre_dispatch_resolution_failure (port.resolve_element_strict d w))
        (λ handle resolved.
          or_scroll fuel request handle (stable_preflight fuel handle request resolved))
