-- ===== src/RefAction/Poll/Verdicts.antt =====
-- What the poll loop returns, and why.
use mathlib.Core.Path.{ap₂}
use agent_desktop.Prelude.{
  Bool-cases, Option, Result, arith, err, false, inl, inr, is_ok, none, not, ok, refl, some, subst,
  suc, sym, true, zero, ℕ, ◌||◌, ◌≡◌, ◌⊎◌, ◌≤◌, ◌<◌,
}
use agent_desktop.RefAction.{
  ActionError, RefActionPollState, ResolveAttemptOutcome, deadline_passed,
  is_permanent_actionability_error, is_timeout, is_unsafe, mark_pre_dispatch_resolution_failure,
  mark_retryable, record_preflight_error, resolve_attempt, resolved, saturating_succ, stability,
  timeout_of,
}
use agent_desktop.RefAction.Poll.{
  Platform, Round, accept, after_preflight, attempt_outcome, classify_error, continues,
  execute_poll_loop, expired, on_outcome, on_resolved, poll_round, resolve_within_deadline, returns,
  still_waiting,
}
use agent_desktop.Error.{
  ErrorCode, is_explicitly_retryable, is_retryable_resolution_failure, is_transient_code,
  permits_retry_by_default, retry,
}
use agent_desktop.Deadline.{Deadline, capped, is_expired, remaining, remaining_slice}
use agent_desktop.Action.{ActionRequest}
use agent_desktop.Actionability.{StabilityExpectation}
use agent_desktop.RefAction.Poll.Branches.{
  accept_late, accept_soon, actionability_failure_again, actionability_failure_final,
  actionability_failure_late, is_final, on_resolved_late, on_resolved_soon, resolve_failure_again,
  resolve_failure_stop,
}

module _ {W : Type 0} {H : Type 0} (platform : Platform W H) (request : ActionRequest)
    (d : Deadline) where
  -- The reasons for which the loop returns a result, in the world where it does.
  pub data Verdict (result : Result ActionError RefActionPollState) (w : W) : Type 0 where
    too_late :
        (s : RefActionPollState)
        → d.expires_at ≤ platform.now w
        → result ≡ err (timeout_of s)
        → Verdict result w
    unresolved :
        (slice : Deadline) (before : W) (e : ActionError)
        → platform.resolve_element_strict slice before ≡ (err e, w)
        → is_retryable_resolution_failure (mark_pre_dispatch_resolution_failure e).error ≡ false
        → result ≡ err (mark_pre_dispatch_resolution_failure e)
        → Verdict result w
    refused :
        (handle : H) (x : StabilityExpectation) (before : W) (e : ActionError)
        → platform.preflight handle x before ≡ (err e, w)
        → (is_permanent_actionability_error e.error.code || not (permits_retry_by_default e.error))
          ≡ true
        → result ≡ err e
        → Verdict result w
    ready :
        (handle : H) (x : StabilityExpectation) (before : W) (s : RefActionPollState)
        → (platform.preflight handle x before).1 ≡ w
        → ((platform.preflight handle x before).0 ≡ ok tt)
          ⊎ ((e : ActionError) × ((platform.preflight handle x before).0 ≡ err e)
              × (still_waiting platform request e ≡ false))
        → platform.now w < d.expires_at
        → result ≡ ok s
        → Verdict result w

  passed : (w : W) → expired platform d w ≡ true → d.expires_at ≤ platform.now w
  unfolding is_expired remaining
  passed w h = ground arith

  not_passed : (w : W) → expired platform d w ≡ false → platform.now w < d.expires_at
  unfolding is_expired remaining
  not_passed w h = ground arith

  unfoldable Decided : Round × W → Type 0
  Decided (returns result, w) = Verdict result w
  Decided (continues s, w) = Unit {0}

  Decided-eq : (x y : Round × W) → x ≡ y → Decided y → Decided x
  Decided-eq x y e v = subst Decided (sym e) v

  accept-Decided :
      (s : RefActionPollState) (w : W)
      → (platform.now w < d.expires_at → Verdict (ok s) w)
      → Decided (accept platform d s w)
  unfolding Decided
  accept-Decided s w go = elim (Bool-cases (expired platform d w)) [
    | inl late ↦
        Decided-eq _ _ (accept_late platform request d s w late) (too_late s (passed w late) refl)
    | inr soon ↦ Decided-eq _ _ (accept_soon platform request d s w soon) (go (not_passed w soon))
  ]

  after_preflight-Decided :
      (s : RefActionPollState) (handle : H) (x : StabilityExpectation) (before : W)
      (result : Result ActionError (Unit {0})) (w : W)
      → (platform.preflight handle x before).0 ≡ result
      → (platform.preflight handle x before).1 ≡ w
      → Decided (after_preflight platform request d s result w)
  unfolding after_preflight Decided
  after_preflight-Decided s handle x before (ok u) w e f =
      accept-Decided s w (λ soon. ready handle x before s f (inl e) soon refl)
  after_preflight-Decided s handle x before (err reason) w e f =
      elim (Bool-cases (still_waiting platform request reason)) [
        | inr go ↦
            rw go (
              accept-Decided s w
                (λ soon. ready handle x before s f (inr (reason, e, go)) soon refl))
        | inl wait ↦ rw wait (elim (Bool-cases (is_final platform request d reason)) [
          | inl final ↦
              Decided-eq _ _ (actionability_failure_final platform request d s reason w final)
                (refused handle x before reason (ap₂ (λ a b. (a, b)) e f) final refl)
          | inr open_ ↦ elim (Bool-cases (expired platform d w)) [
            | inl late ↦
                Decided-eq _ _ (actionability_failure_late platform request d s reason w open_ late)
                  (too_late (record_preflight_error reason s) (passed w late) refl)
            | inr soon ↦
                let (w', again) =
                  actionability_failure_again platform request d s reason w open_ soon in
                Decided-eq _ _ again tt
          ]
        ])
      ]

  on_resolved-Decided :
      (s : RefActionPollState) (handle : H) (w : W)
      → Decided (on_resolved platform request d s handle w)
  unfolding Decided
  on_resolved-Decided s handle w = elim (Bool-cases (expired platform d w)) [
    | inl late ↦
        Decided-eq _ _ (on_resolved_late platform request d s handle w late)
          (too_late s (passed w late) refl)
    | inr soon ↦
        Decided-eq _ _ (on_resolved_soon platform request d s handle w soon)
          (after_preflight-Decided _ handle (stability s) w _ _ refl refl)
  ]

  -- The error of a call of `resolve_element_strict`, which ends in the world.
  abbrev ErrorOf : ActionError → W → Type 0
  ErrorOf e w =
      (slice : Deadline) × (before : W) × (platform.resolve_element_strict slice before
        ≡ (err e, w))

  -- An outcome as `resolve_within_deadline` makes it: an error of the adapter as it is, or one that
  -- has been marked and is retried, or that the deadline has passed.
  unfoldable Explained : ResolveAttemptOutcome H → W → Type 0
  Explained (ResolveAttemptOutcome.failed e) w =
      ErrorOf e w
      ⊎ (is_retryable_resolution_failure (mark_pre_dispatch_resolution_failure e).error ≡ true)
  Explained deadline_passed w = expired platform d w ≡ true
  Explained (resolved handle) w = Unit {0}

  is_timeout_eq : (code : ErrorCode) → is_timeout code ≡ true → is_transient_code code ≡ true
  is_timeout_eq code h = ground arith

  marked_retryable :
      (e : ActionError)
      → is_timeout e.error.code ≡ true
      → is_retryable_resolution_failure
          (mark_pre_dispatch_resolution_failure (mark_retryable e)).error
        ≡ true
  unfolding mark_pre_dispatch_resolution_failure mark_retryable is_retryable_resolution_failure
      is_explicitly_retryable
  marked_retryable e h = rw (is_timeout_eq e.error.code h) refl

  classify-Explained :
      (e : ActionError) (w : W) → ErrorOf e w → Explained (classify_error platform e d w) w
  unfolding classify_error Explained
  classify-Explained e w origin = elim (Bool-cases (is_timeout e.error.code)) [
    | inr other ↦ rw other (inl origin)
    | inl slow ↦
        let marked = marked_retryable e slow in
        rw slow
          (elim (Bool-cases
            (not (permits_retry_by_default e.error) || is_unsafe (retry e.error.disposition))) [
              | inl stop ↦ rw stop (inl origin)
              | inr go ↦ rw go (elim (Bool-cases (expired platform d w)) [
                | inl late ↦ rw (late, Explained) late
                | inr soon ↦ rw soon (inr marked)
              ])
            ])
  ]

  outcome-Explained :
      (slice : Deadline) (before w : W) (result : Result ActionError H)
      → platform.resolve_element_strict slice before ≡ (result, w)
      → Explained (attempt_outcome platform d result w) w
  unfolding attempt_outcome Explained
  outcome-Explained slice before w (ok handle) e = elim (Bool-cases (expired platform d w)) [
    | inl late ↦ rw (late, Explained) late
    | inr soon ↦ rw soon tt
  ]
  outcome-Explained slice before w (err reason) e = classify-Explained reason w (slice, before, e)

  -- Where nothing is left, the deadline has passed.
  no_slice :
      (w : W)
      → not (is_ok (remaining_slice d resolve_attempt (platform.now w))) ≡ true
      → expired platform d w ≡ true
  unfolding remaining_slice remaining is_expired
  no_slice w h = ground arith

  resolve-Explained :
      (w : W)
      → Explained (resolve_within_deadline platform d w).0 (resolve_within_deadline platform d w).1
  unfolding resolve_within_deadline Explained
  resolve-Explained w =
      let slice = capped platform.last d resolve_attempt (platform.now w) in
      let called = platform.resolve_element_strict slice w in
      let found = outcome-Explained slice w called.1 called.0 refl in
      elim (Bool-cases (not (is_ok (remaining_slice d resolve_attempt (platform.now w))))) [
        | inl late ↦ rw (late, Explained) (no_slice w late)
        | inr soon ↦ rw soon found
      ]

  on_outcome-Decided :
      (s : RefActionPollState) (found : ResolveAttemptOutcome H) (w : W)
      → Explained found w
      → Decided (on_outcome platform request d s found w)
  unfolding on_outcome Explained Decided
  on_outcome-Decided s deadline_passed w h = too_late s (passed w h) refl
  on_outcome-Decided s (resolved handle) w h = on_resolved-Decided s handle w
  on_outcome-Decided s (ResolveAttemptOutcome.failed e) w h =
      let marked = mark_pre_dispatch_resolution_failure e in
      elim (Bool-cases (is_retryable_resolution_failure marked.error)) [
        | inl again ↦
            let (s', w', same) = resolve_failure_again platform request d s marked w again in
            Decided-eq _ _ same tt
        | inr stop ↦
            Decided-eq _ _ (resolve_failure_stop platform request d s marked w stop) (elim h [
              | inl (slice, before, origin) ↦ unresolved slice before e origin stop refl
              | inr again ↦ cc (again, stop)
            ])
      ]

  poll_round-Decided :
      (s : RefActionPollState) (w : W) → Decided (poll_round platform request d s w)
  unfolding poll_round
  poll_round-Decided s w =
      on_outcome-Decided (record s { resolve_attempts = saturating_succ s.resolve_attempts })
        (resolve_within_deadline platform d w).0 (resolve_within_deadline platform d w).1
        (resolve-Explained w)

  unfoldable pub DecidedAll : Option (Result ActionError RefActionPollState × W) → Type 0
  DecidedAll none = Unit {0}
  DecidedAll (some (result, w)) = Verdict result w

  loop-Decided :
      (fuel : ℕ) (s : RefActionPollState) (w : W)
      → DecidedAll (execute_poll_loop platform fuel request d s w)
  unfolding execute_poll_loop DecidedAll Decided
  loop-Decided zero s w = tt
  loop-Decided (suc fuel) s w =
      after_round (poll_round platform request d s w) (poll_round-Decided s w) (loop-Decided fuel)
    where
      after_round :
          (x : Round × W)
          → Decided x
          → ((s' : RefActionPollState) (w' : W)
              → DecidedAll (execute_poll_loop platform fuel request d s' w'))
          → DecidedAll (elim x.0 [
            | returns result ↦ some (result, x.1)
            | continues s' ↦ execute_poll_loop platform fuel request d s' x.1
          ])
      after_round (returns result, w') v later = v
      after_round (continues s', w') v later = later s' w'

  pub execute_poll_loop-Verdict :
      (fuel : ℕ) (s : RefActionPollState) (w : W) (result : Result ActionError RefActionPollState)
      (w' : W)
      → execute_poll_loop platform fuel request d s w ≡ some (result, w')
      → Verdict result w'
  unfolding DecidedAll
  execute_poll_loop-Verdict fuel s w result w' e = subst DecidedAll e (loop-Decided fuel s w)
