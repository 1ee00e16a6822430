-- ===== src/RefAction/Poll/Clock.antt =====
-- The poll loop against a clock that runs: it comes to an end.
use agent_desktop.Prelude.{
  Bool-cases, Result, arith, err, if◌then◌else◌, inl, inr, ok, refl, some, subst, suc, zero, ℕ, ◌*◌,
  ◌+◌, ◌∙◌, ◌≡◌, ◌≤◌,
}
use agent_desktop.Text.{codes}
use agent_desktop.Actionability.{StabilityExpectation}
use agent_desktop.Action.{ActionRequest}
use agent_desktop.RefAction.{
  timeout_of, ActionError, RefActionPollState, ResolveAttemptOutcome, deadline_passed, failed_check,
  mark_pre_dispatch_resolution_failure, poll_interval, resolve_attempt, resolved, saturating_succ,
  stability, stability_poll_interval,
}
use agent_desktop.RefAction.Poll.{
  Platform, Round, Round-cases, accept, after_preflight, continues, ensure_before_deadline,
  execute_poll_loop, handle_actionability_failure, handle_resolve_failure, on_outcome, on_resolved,
  poll_round, resolve_within_deadline, returns, sleep_until_next_poll, still_waiting,
}
use agent_desktop.Error.{is_retryable_resolution_failure}
use agent_desktop.Deadline.{Deadline, min, remaining, capped, remaining_slice}

-- A sleep lasts at least as long as it is asked to, and no call of the adapter turns the clock back.
pub record IsClock {W H : Type 0} (platform : Platform W H) : Type 0 where
  pub sleeps : (n : ℕ) (w : W) → platform.now w + n ≤ platform.now (platform.sleep n w)
  pub resolves :
      (d : Deadline) (w : W) → platform.now w ≤ platform.now (platform.resolve_element_strict d w).1
  pub preflights :
      (handle : H) (x : StabilityExpectation) (w : W)
      → platform.now w ≤ platform.now (platform.preflight handle x w).1

module _ {W : Type 0} {H : Type 0} (platform : Platform W H) (clock : IsClock platform) where
  -- A stability interval has passed since `t`, or the deadline has.
  abbrev Slept : Deadline → ℕ → W → Type 0
  Slept d t w = min (t + stability_poll_interval) d.expires_at ≤ platform.now w

  -- A round that is followed by another one has slept.
  unfoldable Progress : Deadline → ℕ → Round × W → Type 0
  Progress d t (returns result, w) = Unit {0}
  Progress d t (continues s, w) = Slept d t w

  slept :
      (d : Deadline) (interval t : ℕ) (w : W)
      → stability_poll_interval ≤ interval
      → t ≤ platform.now w
      → Slept d t (sleep_until_next_poll platform d interval w)
  unfolding sleep_until_next_poll remaining
  slept d interval t w long h =
      ground (arith, clock.sleeps (min interval (remaining d (platform.now w))) w)

  resolve_failure-Progress :
      (d : Deadline) (s : RefActionPollState) (e : ActionError) (t : ℕ) (w : W)
      → t ≤ platform.now w
      → Progress d t (handle_resolve_failure platform d s e w)
  unfolding handle_resolve_failure Progress
  resolve_failure-Progress d s e t w h =
      elim (Bool-cases (is_retryable_resolution_failure e.error)) [
        | inl again ↦ rw again (slept d poll_interval t w (omega arith) h)
        | inr stop ↦ rw stop tt
      ]

  actionability_failure-Progress :
      (d : Deadline) (s : RefActionPollState) (e : ActionError) (t : ℕ) (w : W)
      → t ≤ platform.now w
      → Progress d t (handle_actionability_failure platform d s e w)
  unfolding handle_actionability_failure Progress ensure_before_deadline
  actionability_failure-Progress d s e t w h =
      let interval =
        if failed_check e (codes "stable") then stability_poll_interval else poll_interval in
      let long : stability_poll_interval ≤ interval = ground arith in
      let rest = slept d interval t w long h in ground (arith, rest)

  accept-Progress :
      (d : Deadline) (s : RefActionPollState) (t : ℕ) (w : W) → Progress d t (accept platform d s w)
  unfolding accept Progress ensure_before_deadline
  accept-Progress d s t w = ground arith

  after_preflight-Progress :
      (request : ActionRequest) (d : Deadline) (s : RefActionPollState)
      (result : Result ActionError (Unit {0})) (t : ℕ) (w : W)
      → t ≤ platform.now w
      → Progress d t (after_preflight platform request d s result w)
  unfolding after_preflight
  after_preflight-Progress request d s (ok _) t w h = accept-Progress d s t w
  after_preflight-Progress request d s (err e) t w h =
      elim (Bool-cases (still_waiting platform request e)) [
        | inl wait ↦ rw wait (actionability_failure-Progress d s e t w h)
        | inr go ↦ rw go (accept-Progress d s t w)
      ]

  on_resolved-Progress :
      (request : ActionRequest) (d : Deadline) (s : RefActionPollState) (handle : H) (t : ℕ) (w : W)
      → t ≤ platform.now w
      → Progress d t (on_resolved platform request d s handle w)
  unfolding on_resolved Progress ensure_before_deadline
  on_resolved-Progress request d s handle t w h =
      let rest =
        after_preflight-Progress request d
          (record s { preflight_attempts = saturating_succ s.preflight_attempts })
          (platform.preflight handle (stability s) w).0 t
          (platform.preflight handle (stability s) w).1
          (omega (arith, h, clock.preflights handle (stability s) w)) in
      ground (arith, rest)

  on_outcome-Progress :
      (request : ActionRequest) (d : Deadline) (s : RefActionPollState)
      (found : ResolveAttemptOutcome H) (t : ℕ) (w : W)
      → t ≤ platform.now w
      → Progress d t (on_outcome platform request d s found w)
  unfolding on_outcome Progress
  on_outcome-Progress request d s deadline_passed t w h = tt
  on_outcome-Progress request d s (ResolveAttemptOutcome.failed e) t w h =
      resolve_failure-Progress d s (mark_pre_dispatch_resolution_failure e) t w h
  on_outcome-Progress request d s (resolved handle) t w h =
      on_resolved-Progress request d s handle t w h

  resolve_clock :
      (d : Deadline) (w : W)
      → platform.now w ≤ platform.now (resolve_within_deadline platform d w).1
  unfolding resolve_within_deadline
  resolve_clock d w =
      ground (arith, clock.resolves (capped platform.last d resolve_attempt (platform.now w)) w)

  poll_round-Progress :
      (request : ActionRequest) (d : Deadline) (s : RefActionPollState) (w : W)
      → Progress d (platform.now w) (poll_round platform request d s w)
  unfolding poll_round
  poll_round-Progress request d s w =
      on_outcome-Progress request d
        (record s { resolve_attempts = saturating_succ s.resolve_attempts })
        (resolve_within_deadline platform d w).0 (platform.now w)
        (resolve_within_deadline platform d w).1 (resolve_clock d w)

  -- A round that starts after the deadline returns.
  expired_round :
      (request : ActionRequest) (d : Deadline) (s : RefActionPollState) (w : W)
      → d.expires_at ≤ platform.now w
      → (result : Result ActionError RefActionPollState) × ((poll_round platform request d s w).0
          ≡ returns result)
  unfolding poll_round resolve_within_deadline on_outcome remaining_slice remaining
  expired_round request d s w h =
      let gone : remaining d (platform.now w) ≡ 0 = omega arith in
      let s' = record s { resolve_attempts = saturating_succ s.resolve_attempts } in
      (err (timeout_of s'), rw gone refl)

  -- What is left for the rounds that follow.
  next_window :
      (request : ActionRequest) (d : Deadline) (s s' : RefActionPollState) (w : W) (rounds : ℕ)
      → d.expires_at ≤ platform.now w + suc rounds * stability_poll_interval
      → (poll_round platform request d s w).0 ≡ continues s'
      → d.expires_at
        ≤ platform.now (poll_round platform request d s w).1 + rounds * stability_poll_interval
  unfolding Progress
  next_window request d s s' w rounds h e =
      let after_it = (poll_round platform request d s w).1 in
      let moved : Slept d (platform.now w) after_it =
        subst (λ r. Progress d (platform.now w) (r, after_it)) e
          (poll_round-Progress request d s w) in
      ground arith

  loop_returns :
      (fuel : ℕ) (request : ActionRequest) (d : Deadline) (s : RefActionPollState) (w : W)
      (result : Result ActionError RefActionPollState)
      → (poll_round platform request d s w).0 ≡ returns result
      → execute_poll_loop platform (suc fuel) request d s w
        ≡ some (result, (poll_round platform request d s w).1)
  unfolding execute_poll_loop
  loop_returns fuel request d s w result e = rw (e, execute_poll_loop) refl

  loop_continues :
      (fuel : ℕ) (request : ActionRequest) (d : Deadline) (s s' : RefActionPollState) (w : W)
      → (poll_round platform request d s w).0 ≡ continues s'
      → execute_poll_loop platform (suc fuel) request d s w
        ≡ execute_poll_loop platform fuel request d s' (poll_round platform request d s w).1
  unfolding execute_poll_loop
  loop_continues fuel request d s s' w e = rw (e, execute_poll_loop) refl

  -- With one round for each stability interval that is left until the deadline, and one more, the
  -- poll loop returns, on a clock that runs.
  pub execute_poll_loop_total :
      (request : ActionRequest) (d : Deadline) (s : RefActionPollState) (w : W) (rounds : ℕ)
      → d.expires_at ≤ platform.now w + rounds * stability_poll_interval
      → (result : Result ActionError RefActionPollState) × (w' : W) × (execute_poll_loop platform
            (suc rounds)
            request
            d
            s
            w
          ≡ some (result, w'))
  execute_poll_loop_total request d s w zero h =
      let (result, e) = expired_round request d s w (omega arith) in
      (result, (poll_round platform request d s w).1, loop_returns 0 request d s w result e)
  execute_poll_loop_total request d s w (suc rounds) h =
      elim (Round-cases (poll_round platform request d s w).0) [
        | inl (result, e) ↦ (
          result,
          (poll_round platform request d s w).1,
          loop_returns (suc rounds) request d s w result e,
        )
        | inr (s', e) ↦
            let (result, w', rest) =
              execute_poll_loop_total request d s' (poll_round platform request d s w).1 rounds
                (next_window request d s s' w rounds h e) in
            (result, w', loop_continues (suc rounds) request d s s' w e ∙ rest)
      ]
