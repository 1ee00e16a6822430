-- ===== src/RefAction/Poll.antt =====
-- ref_action_poll.rs and ref_resolve_deadline.rs: the loop that resolves the ref and checks the
-- target until it is actionable or the deadline passes. The world `W` is what the adapter and the
-- clock are about: a call of the adapter and a sleep take the world before them to the one after.
pub mod Clock
pub mod Branches
pub mod Verdicts
pub mod Worlds
use agent_desktop.Prelude.{
  inl, inr, refl, ◌≡◌, ◌⊎◌, Bool, Option, Result, err, guard, if◌then◌else◌, is_ok, none, not, ok,
  some, suc, zero, ℕ, ◌&&◌, ◌==◌, ◌||◌,
}
use agent_desktop.Text.{codes}
use agent_desktop.Error.{is_retryable_resolution_failure, permits_retry_by_default, retry}
use agent_desktop.Policy.{requires_focus}
use agent_desktop.Action.{ActionRequest, headed_requirement, left}
use agent_desktop.Actionability.{StabilityExpectation, failed}
use agent_desktop.Deadline.{Deadline, capped, is_expired, min, remaining, remaining_slice}
use agent_desktop.RefAction.{
  ActionError, RefActionPollState, ResolveAttemptOutcome, deadline_passed, failed_check,
  is_ambiguous_target, is_permanent_actionability_error, is_timeout, is_unsafe,
  mark_pre_dispatch_resolution_failure, mark_retryable, poll_interval, record_preflight_error,
  record_resolve_error, resolve_attempt, resolved, saturating_succ, should_scroll_after_preflight,
  stability, stability_poll_interval, timeout_of,
}

-- The clock, the adapter's `resolve_element_strict` for the entry, and the preflight on a handle.
pub record Platform (W : Type 0) (H : Type 0) : Type 0 where
  pub last : ℕ
  pub now : W → ℕ
  pub sleep : ℕ → W → W
  pub resolve_element_strict : Deadline → W → Result ActionError H × W
  pub preflight : H → StabilityExpectation → W → Result ActionError (Unit {0}) × W

-- Where a round of the loop ends: it returns, or another round follows.
pub data Round : Type 0 where
  returns : Result ActionError RefActionPollState → Round
  continues : RefActionPollState → Round

pub Round-cases :
    (r : Round)
    → ((result : Result ActionError RefActionPollState) × (r ≡ returns result))
      ⊎ ((s : RefActionPollState) × (r ≡ continues s))
Round-cases (returns result) = inl (result, refl)
Round-cases (continues s) = inr (s, refl)

module _ {W : Type 0} {H : Type 0} (platform : Platform W H) where
  abbrev pub expired : Deadline → W → Bool
  expired d w = is_expired d (platform.now w)

  unfoldable pub classify_error : ActionError → Deadline → W → ResolveAttemptOutcome H
  unfolding permits_retry_by_default retry mark_retryable
  classify_error e d w =
      if not (is_timeout e.error.code)
      then ResolveAttemptOutcome.failed e
      else if not (permits_retry_by_default e.error) || is_unsafe (retry e.error.disposition)
      then ResolveAttemptOutcome.failed e
      else if expired d w
      then deadline_passed
      else ResolveAttemptOutcome.failed (mark_retryable e)

  unfoldable pub attempt_outcome : Deadline → Result ActionError H → W → ResolveAttemptOutcome H
  unfolding classify_error
  attempt_outcome d (ok handle) w = if expired d w then deadline_passed else resolved handle
  attempt_outcome d (err e) w = classify_error e d w

  unfoldable pub resolve_within_deadline : Deadline → W → ResolveAttemptOutcome H × W
  unfolding attempt_outcome remaining_slice capped
  resolve_within_deadline d w =
      let (result, after_call) =
        platform.resolve_element_strict (capped platform.last d resolve_attempt (platform.now w))
          w in
      if not (is_ok (remaining_slice d resolve_attempt (platform.now w)))
      then (deadline_passed, w)
      else (attempt_outcome d result after_call, after_call)

  unfoldable pub sleep_until_next_poll : Deadline → ℕ → W → W
  unfolding remaining
  sleep_until_next_poll d interval w =
      let left = remaining d (platform.now w) in
      if left == 0 then w else platform.sleep (min interval left) w

  unfoldable pub ensure_before_deadline :
      Deadline → RefActionPollState → W → Result ActionError (Unit {0})
  unfolding timeout_of
  ensure_before_deadline d s w = guard (not (expired d w)) (timeout_of s)

  unfoldable pub handle_actionability_failure :
      Deadline → RefActionPollState → ActionError → W → Round × W
  unfolding sleep_until_next_poll ensure_before_deadline record_preflight_error
      is_permanent_actionability_error permits_retry_by_default failed_check
  handle_actionability_failure d s e w =
      let recorded = record_preflight_error e s in
      let interval =
        if failed_check e (codes "stable") then stability_poll_interval else poll_interval in
      if is_permanent_actionability_error e.error.code || not (permits_retry_by_default e.error)
      then (returns (err e), w)
      else elim (ensure_before_deadline d recorded w) [
        | err late ↦ (returns (err late), w)
        | ok _ ↦ (continues recorded, sleep_until_next_poll d interval w)
      ]

  unfoldable pub handle_resolve_failure :
      Deadline → RefActionPollState → ActionError → W → Round × W
  unfolding sleep_until_next_poll record_resolve_error is_retryable_resolution_failure
  handle_resolve_failure d s e w =
      let ambiguous = s.saw_ambiguity || is_ambiguous_target e.error.code in
      if not (is_retryable_resolution_failure e.error) then (returns (err e), w) else (
        continues (record_resolve_error (record s { saw_ambiguity = ambiguous })),
        sleep_until_next_poll d poll_interval w,
      )

  unfoldable pub still_waiting : ActionRequest → ActionError → Bool
  unfolding headed_requirement requires_focus failed_check should_scroll_after_preflight
  still_waiting request e =
      let focus_pending =
        requires_focus (headed_requirement request) && failed_check e (codes "receives_events") in
      not focus_pending && not (should_scroll_after_preflight request e)

  -- The last test of a round.
  unfoldable pub accept : Deadline → RefActionPollState → W → Round × W
  unfolding ensure_before_deadline
  accept d s w = elim (ensure_before_deadline d s w) [
    | err late ↦ (returns (err late), w)
    | ok _ ↦ (returns (ok s), w)
  ]

  unfoldable pub after_preflight :
      ActionRequest → Deadline → RefActionPollState → Result ActionError (Unit {0}) → W → Round × W
  unfolding accept still_waiting handle_actionability_failure
  after_preflight request d s (ok _) w = accept d s w
  after_preflight request d s (err e) w =
      if still_waiting request e then handle_actionability_failure d s e w else accept d s w

  unfoldable pub on_resolved : ActionRequest → Deadline → RefActionPollState → H → W → Round × W
  unfolding ensure_before_deadline after_preflight
  on_resolved request d s handle w = elim (ensure_before_deadline d s w) [
    | err late ↦ (returns (err late), w)
    | ok _ ↦
        let (result, after_call) = platform.preflight handle (stability s) w in
        after_preflight request d
          (record s { preflight_attempts = saturating_succ s.preflight_attempts }) result after_call
  ]

  unfoldable pub on_outcome :
      ActionRequest → Deadline → RefActionPollState → ResolveAttemptOutcome H → W → Round × W
  unfolding on_resolved handle_resolve_failure mark_pre_dispatch_resolution_failure timeout_of
  on_outcome request d s deadline_passed w = (returns (err (timeout_of s)), w)
  on_outcome request d s (ResolveAttemptOutcome.failed e) w =
      handle_resolve_failure d s (mark_pre_dispatch_resolution_failure e) w
  on_outcome request d s (resolved handle) w = on_resolved request d s handle w

  unfoldable pub poll_round : ActionRequest → Deadline → RefActionPollState → W → Round × W
  unfolding on_outcome resolve_within_deadline
  poll_round request d s w =
      let (found, after_call) = resolve_within_deadline d w in
      on_outcome request d (record s { resolve_attempts = saturating_succ s.resolve_attempts })
        found after_call

  -- The `loop` of `execute_poll_loop`, on fuel.
  unfoldable pub execute_poll_loop :
      ℕ
      → ActionRequest
      → Deadline
      → RefActionPollState
      → W
      → Option (Result ActionError RefActionPollState × W)
  unfolding poll_round
  execute_poll_loop zero request d s w = none
  execute_poll_loop (suc fuel) request d s w =
      let (round, w') = poll_round request d s w in
      elim round [
        | returns result ↦ some (result, w')
        | continues s' ↦ execute_poll_loop fuel request d s' w'
      ]
