-- ===== src/RefAction/Poll/Worlds.antt =====
-- What every call and sleep keeps of the world, the poll loop keeps.
use agent_desktop.Prelude.{
  Bool-cases, Option, Result, err, if◌then◌else◌, inl, inr, is_ok, none, not, ok, some, subst, suc,
  sym, zero, ℕ, ◌==◌, ◌≡◌,
}
use agent_desktop.Text.{codes}
use agent_desktop.Error.{is_retryable_resolution_failure}
use agent_desktop.Action.{ActionRequest}
use agent_desktop.Actionability.{StabilityExpectation}
use agent_desktop.Deadline.{Deadline, capped, min, remaining, remaining_slice}
use agent_desktop.RefAction.{
  ActionError, RefActionPollState, ResolveAttemptOutcome, deadline_passed, failed_check,
  mark_pre_dispatch_resolution_failure, poll_interval, record_preflight_error, resolve_attempt,
  resolved, saturating_succ, stability, stability_poll_interval,
}
use agent_desktop.RefAction.Poll.{
  Platform, Round, accept, after_preflight, continues, execute_poll_loop, expired,
  handle_actionability_failure, handle_resolve_failure, on_outcome, on_resolved, poll_round,
  resolve_within_deadline, returns, sleep_until_next_poll, still_waiting,
}
use agent_desktop.RefAction.Poll.Branches.{
  accept_late, accept_soon, ensure_late, ensure_soon, is_final, on_resolved_late, on_resolved_soon,
}

pub record Keeps {W H : Type 0} (platform : Platform W H) (P : W → Type 0) : Type 0 where
  pub sleeps : (n : ℕ) (w : W) → P w → P (platform.sleep n w)
  pub resolves : (d : Deadline) (w : W) → P w → P (platform.resolve_element_strict d w).1
  pub preflights :
      (handle : H) (x : StabilityExpectation) (w : W) → P w → P (platform.preflight handle x w).1

module _ {W : Type 0} {H : Type 0} (platform : Platform W H) (request : ActionRequest)
    (d : Deadline) (P : W → Type 0) (keeps : Keeps platform P) where
  sleep-keeps : (interval : ℕ) (w : W) → P w → P (sleep_until_next_poll platform d interval w)
  unfolding sleep_until_next_poll
  sleep-keeps interval w h =
      let slept = keeps.sleeps (min interval (remaining d (platform.now w))) w h in
      elim (Bool-cases (remaining d (platform.now w) == 0)) [
        | inl gone ↦ rw gone h
        | inr more ↦ rw more slept
      ]

  resolve_failure-keeps :
      (s : RefActionPollState) (e : ActionError) (w : W)
      → P w
      → P (handle_resolve_failure platform d s e w).1
  unfolding handle_resolve_failure
  resolve_failure-keeps s e w h =
      let slept = sleep-keeps poll_interval w h in
      elim (Bool-cases (is_retryable_resolution_failure e.error)) [
        | inl again ↦ rw again slept
        | inr stop ↦ rw stop h
      ]

  accept-keeps : (s : RefActionPollState) (w : W) → P w → P (accept platform d s w).1
  accept-keeps s w h = elim (Bool-cases (expired platform d w)) [
    | inl late ↦ subst (λ x. P x.1) (sym (accept_late platform request d s w late)) h
    | inr soon ↦ subst (λ x. P x.1) (sym (accept_soon platform request d s w soon)) h
  ]

  actionability_failure-keeps :
      (s : RefActionPollState) (e : ActionError) (w : W)
      → P w
      → P (handle_actionability_failure platform d s e w).1
  unfolding handle_actionability_failure
  actionability_failure-keeps s e w h =
      let recorded = record_preflight_error e s in
      let interval =
        if failed_check e (codes "stable") then stability_poll_interval else poll_interval in
      let slept = sleep-keeps interval w h in
      elim (Bool-cases (is_final platform request d e)) [
        | inl final ↦ rw final h
        | inr open_ ↦ rw open_ (elim (Bool-cases (expired platform d w)) [
          | inl late ↦ rw (ensure_late platform request d recorded w late) h
          | inr soon ↦ rw (ensure_soon platform request d recorded w soon) slept
        ])
      ]

  after_preflight-keeps :
      (s : RefActionPollState) (result : Result ActionError (Unit {0})) (w : W)
      → P w
      → P (after_preflight platform request d s result w).1
  unfolding after_preflight
  after_preflight-keeps s (ok u) w h = accept-keeps s w h
  after_preflight-keeps s (err e) w h = elim (Bool-cases (still_waiting platform request e)) [
    | inl wait ↦ rw wait (actionability_failure-keeps s e w h)
    | inr go ↦ rw go (accept-keeps s w h)
  ]

  on_resolved-keeps :
      (s : RefActionPollState) (handle : H) (w : W)
      → P w
      → P (on_resolved platform request d s handle w).1
  on_resolved-keeps s handle w h = elim (Bool-cases (expired platform d w)) [
    | inl late ↦ subst (λ x. P x.1) (sym (on_resolved_late platform request d s handle w late)) h
    | inr soon ↦
        subst (λ x. P x.1) (sym (on_resolved_soon platform request d s handle w soon))
          (after_preflight-keeps
            (record s { preflight_attempts = saturating_succ s.preflight_attempts })
            (platform.preflight handle (stability s) w).0
            (platform.preflight handle (stability s) w).1
            (keeps.preflights handle (stability s) w h))
  ]

  on_outcome-keeps :
      (s : RefActionPollState) (found : ResolveAttemptOutcome H) (w : W)
      → P w
      → P (on_outcome platform request d s found w).1
  unfolding on_outcome
  on_outcome-keeps s deadline_passed w h = h
  on_outcome-keeps s (resolved handle) w h = on_resolved-keeps s handle w h
  on_outcome-keeps s (ResolveAttemptOutcome.failed e) w h =
      resolve_failure-keeps s (mark_pre_dispatch_resolution_failure e) w h

  resolve-keeps : (w : W) → P w → P (resolve_within_deadline platform d w).1
  unfolding resolve_within_deadline
  resolve-keeps w h =
      let called = keeps.resolves (capped platform.last d resolve_attempt (platform.now w)) w h in
      elim (Bool-cases (not (is_ok (remaining_slice d resolve_attempt (platform.now w))))) [
        | inl late ↦ rw late h
        | inr soon ↦ rw soon called
      ]

  poll_round-keeps :
      (s : RefActionPollState) (w : W) → P w → P (poll_round platform request d s w).1
  unfolding poll_round
  poll_round-keeps s w h =
      on_outcome-keeps (record s { resolve_attempts = saturating_succ s.resolve_attempts })
        (resolve_within_deadline platform d w).0 (resolve_within_deadline platform d w).1
        (resolve-keeps w h)

  unfoldable KeptAfter : Option (Result ActionError RefActionPollState × W) → Type 0
  KeptAfter none = Unit {0}
  KeptAfter (some (result, w)) = P w

  loop-KeptAfter :
      (fuel : ℕ) (s : RefActionPollState) (w : W)
      → P w
      → KeptAfter (execute_poll_loop platform fuel request d s w)
  unfolding execute_poll_loop KeptAfter
  loop-KeptAfter zero s w h = tt
  loop-KeptAfter (suc fuel) s w h =
      after_round (poll_round platform request d s w) (poll_round-keeps s w h) (loop-KeptAfter fuel)
    where
      after_round :
          (x : Round × W)
          → P x.1
          → ((s' : RefActionPollState) (w' : W)
              → P w'
              → KeptAfter (execute_poll_loop platform fuel request d s' w'))
          → KeptAfter (elim x.0 [
            | returns result ↦ some (result, x.1)
            | continues s' ↦ execute_poll_loop platform fuel request d s' x.1
          ])
      after_round (returns result, w') k later = k
      after_round (continues s', w') k later = later s' w' k

  pub execute_poll_loop-keeps :
      (fuel : ℕ) (s : RefActionPollState) (w : W) (result : Result ActionError RefActionPollState)
      (w' : W)
      → P w
      → execute_poll_loop platform fuel request d s w ≡ some (result, w')
      → P w'
  unfolding KeptAfter
  execute_poll_loop-keeps fuel s w result w' h e = subst KeptAfter e (loop-KeptAfter fuel s w h)
