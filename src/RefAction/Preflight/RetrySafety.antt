-- ===== src/RefAction/Preflight/RetrySafety.antt =====
-- The errors of the poll loop on a live adapter are safe to retry: nothing has been delivered.
use agent_desktop.Prelude.{Option, ap, arith, err, inl, inr, refl, some, sym, ℕ, ◌∙◌, ◌≡◌, ◌⊎◌}
use agent_desktop.Text.{Text}
use agent_desktop.Error.{DeliverySemantics, retry, safe}
use agent_desktop.Geometry.{F64, Rect}
use agent_desktop.RefEntry.{RefEntry}
use agent_desktop.Action.{ActionRequest}
use agent_desktop.Actionability.Gates.{Arithmetic}
use agent_desktop.Deadline.{Deadline}
use agent_desktop.RefAction.{
  ActionError, RefActionPollState, mark_pre_dispatch_resolution_failure, timeout_of,
}
use agent_desktop.RefAction.Poll.{execute_poll_loop}
use agent_desktop.RefAction.Poll.Verdicts.{
  Verdict, execute_poll_loop-Verdict, ready, refused, too_late, unresolved,
}
use agent_desktop.RefAction.Preflight.{LiveAdapter, live_platform}
use agent_desktop.RefAction.Preflight.Quiet.{
  FromTrace, IsReadOnly, NotDelivered, err-injective, preflight-NotDelivered,
}

timeout_of-NotDelivered : (s : RefActionPollState) → NotDelivered (timeout_of s).error
unfolding timeout_of
timeout_of-NotDelivered s = ground arith

module _ (parse_f64 : Text → Option F64) (hash : Rect → ℕ) (arithmetic : Arithmetic) {W : Type 0}
    {H : Type 0} (adapter : LiveAdapter W H) (quiet : IsReadOnly adapter) (entry : RefEntry)
    (request : ActionRequest) (d : Deadline) where
  Verdict-NotDelivered :
      (e : ActionError) (w : W)
      → Verdict
          (live_platform parse_f64 hash arithmetic adapter entry request d)
          request
          d
          (err e)
          w
      → NotDelivered e.error ⊎ FromTrace parse_f64 hash arithmetic adapter entry request d e
  unfolding mark_pre_dispatch_resolution_failure
  Verdict-NotDelivered e w (too_late s late same) =
      inl (ap (λ x. x.error.disposition) (err-injective same) ∙ timeout_of-NotDelivered s)
  Verdict-NotDelivered e w (unresolved slice before reason origin stop same) = inl (
      ap (λ x. x.error.disposition) (err-injective same)
      ∙ quiet.resolve_quiet slice before reason (ap (λ x. x.0) origin))
  Verdict-NotDelivered e w (refused handle x before reason origin final same) =
      preflight-NotDelivered parse_f64 hash arithmetic adapter entry request d quiet handle x before
        e (ap (λ r. r.0) origin ∙ ap err (sym (err-injective same)))
  Verdict-NotDelivered e w (ready handle x before s there fine soon same) = cc same

  -- Let the adapter's reads leave the delivery open in their errors, or say that there was none. Then
  -- an error of the poll loop, with the preflight that checks the live element, says that nothing was
  -- delivered, and that it is safe to retry, or it is the error of a trace that could not be written.
  pub execute_poll_loop_safe :
      (fuel : ℕ) (s : RefActionPollState) (w w' : W) (e : ActionError)
      → execute_poll_loop
          (live_platform parse_f64 hash arithmetic adapter entry request d)
          fuel
          request
          d
          s
          w
        ≡ some (err e, w')
      → ((e.error.disposition ≡ DeliverySemantics.not_delivered)
          × (retry e.error.disposition ≡ safe))
        ⊎ FromTrace parse_f64 hash arithmetic adapter entry request d e
  unfolding retry
  execute_poll_loop_safe fuel s w w' e run =
      elim (Verdict-NotDelivered e w' (
        execute_poll_loop-Verdict (live_platform parse_f64 hash arithmetic adapter entry request d)
          request d fuel s w (err e) w' run)) [
            | inl silent ↦ inl (silent, rw silent refl)
            | inr trace ↦ inr trace
          ]
