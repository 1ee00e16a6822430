-- ===== src/RefAction/Poll/Branches.antt =====
-- The branches of the functions that a round of the poll loop is made of.
use agent_desktop.Prelude.{Bool, err, false, if◌then◌else◌, not, ok, refl, true, ◌||◌, ◌≡◌}
use agent_desktop.RefAction.{
  ActionError, RefActionPollState, failed_check, is_ambiguous_target,
  is_permanent_actionability_error, poll_interval, record_preflight_error, record_resolve_error,
  saturating_succ, stability, stability_poll_interval, timeout_of,
}
use agent_desktop.Text.{codes}
use agent_desktop.RefAction.Poll.{
  Platform, accept, after_preflight, continues, ensure_before_deadline, expired,
  handle_actionability_failure, handle_resolve_failure, on_resolved, returns, sleep_until_next_poll,
}
use agent_desktop.Error.{is_retryable_resolution_failure, permits_retry_by_default}
use agent_desktop.Deadline.{Deadline}
use agent_desktop.Action.{ActionRequest}

module _ {W : Type 0} {H : Type 0} (platform : Platform W H) (request : ActionRequest)
    (d : Deadline) where
  pub ensure_late :
      (s : RefActionPollState) (w : W)
      → expired platform d w ≡ true
      → ensure_before_deadline platform d s w ≡ err (timeout_of s)
  unfolding ensure_before_deadline
  ensure_late s w e = rw e refl

  pub ensure_soon :
      (s : RefActionPollState) (w : W)
      → expired platform d w ≡ false
      → ensure_before_deadline platform d s w ≡ ok tt
  unfolding ensure_before_deadline
  ensure_soon s w e = rw e refl

  pub accept_late :
      (s : RefActionPollState) (w : W)
      → expired platform d w ≡ true
      → accept platform d s w ≡ (returns (err (timeout_of s)), w)
  unfolding accept
  accept_late s w e = rw (ensure_late s w e, accept) refl

  pub accept_soon :
      (s : RefActionPollState) (w : W)
      → expired platform d w ≡ false
      → accept platform d s w ≡ (returns (ok s), w)
  unfolding accept
  accept_soon s w e = rw (ensure_soon s w e, accept) refl

  pub resolve_failure_stop :
      (s : RefActionPollState) (e : ActionError) (w : W)
      → is_retryable_resolution_failure e.error ≡ false
      → handle_resolve_failure platform d s e w ≡ (returns (err e), w)
  unfolding handle_resolve_failure
  resolve_failure_stop s e w h = rw h refl

  pub resolve_failure_again :
      (s : RefActionPollState) (e : ActionError) (w : W)
      → is_retryable_resolution_failure e.error ≡ true
      → (s' : RefActionPollState) × (w' : W) × (handle_resolve_failure platform d s e w
          ≡ (continues s', w'))
  unfolding handle_resolve_failure
  resolve_failure_again s e w h = (
    record_resolve_error
        (record s { saw_ambiguity = s.saw_ambiguity || is_ambiguous_target e.error.code }),
    sleep_until_next_poll platform d poll_interval w,
    rw h refl,
  )

  abbrev pub is_final : ActionError → Bool
  is_final e =
      is_permanent_actionability_error e.error.code || not (permits_retry_by_default e.error)

  pub actionability_failure_final :
      (s : RefActionPollState) (e : ActionError) (w : W)
      → is_final e ≡ true
      → handle_actionability_failure platform d s e w ≡ (returns (err e), w)
  unfolding handle_actionability_failure
  actionability_failure_final s e w h = rw h refl

  pub actionability_failure_late :
      (s : RefActionPollState) (e : ActionError) (w : W)
      → is_final e ≡ false
      → expired platform d w ≡ true
      → handle_actionability_failure platform d s e w
        ≡ (returns (err (timeout_of (record_preflight_error e s))), w)
  unfolding handle_actionability_failure
  actionability_failure_late s e w h late =
      rw (h, ensure_late (record_preflight_error e s) w late) refl

  pub actionability_failure_again :
      (s : RefActionPollState) (e : ActionError) (w : W)
      → is_final e ≡ false
      → expired platform d w ≡ false
      → (w' : W) × (handle_actionability_failure platform d s e w
          ≡ (continues (record_preflight_error e s), w'))
  unfolding handle_actionability_failure
  actionability_failure_again s e w h soon = (
    sleep_until_next_poll platform d
        (if failed_check e (codes "stable") then stability_poll_interval else poll_interval) w,
    rw (h, ensure_soon (record_preflight_error e s) w soon) refl,
  )

  pub on_resolved_late :
      (s : RefActionPollState) (handle : H) (w : W)
      → expired platform d w ≡ true
      → on_resolved platform request d s handle w ≡ (returns (err (timeout_of s)), w)
  unfolding on_resolved
  on_resolved_late s handle w e = rw (ensure_late s w e, on_resolved) refl

  pub on_resolved_soon :
      (s : RefActionPollState) (handle : H) (w : W)
      → expired platform d w ≡ false
      → on_resolved platform request d s handle w
        ≡ after_preflight platform request d
            (record s { preflight_attempts = saturating_succ s.preflight_attempts })
            (platform.preflight handle (stability s) w).0
            (platform.preflight handle (stability s) w).1
  unfolding on_resolved
  on_resolved_soon s handle w e = rw (ensure_soon s w e, on_resolved) refl
