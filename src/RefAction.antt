-- ===== src/RefAction.antt =====
-- crates/core/src/ref_action_poll.rs, ref_action_poll_state.rs, ref_resolve_deadline.rs,
-- resolve_attempt_outcome.rs, ref_action_wait_evidence.rs and parts of ref_action.rs and
-- ref_action_wait.rs: an action on a ref waits until its target is actionable. An error of this
-- component carries the keys of its JSON details that the code reads; `retryable` is among the
-- fields of `AdapterError`. The traces of a resolution, and the copy of the last report in the
-- details, are left out.
pub mod Poll
pub mod Preflight
pub mod Dispatch
use agent_desktop.Prelude.{
  Bool, List, Option, all, any, false, if◌then◌else◌, is_some_and, ltb, none, not, or_else, some,
  true, unwrap_or, ℕ, ◌&&◌, ◌*◌, ◌+◌, ◌||◌,
}
use agent_desktop.Text.{Text, codes, text_eq}
use agent_desktop.Error.{
  AdapterError, DeliverySemantics, ErrorCode, RetryDisposition, action_failed, action_not_supported,
  ambiguous_target, app_not_found, internal, invalid_args, new, not_delivered, perm_denied,
  policy_denied, stale_ref, timeout, unknown, unsafe, with_details, with_disposition,
  with_suggestion,
}
use agent_desktop.Action.{ActionRequest, requires_scroll_into_view}
use agent_desktop.Actionability.{StabilityExpectation}
use agent_desktop.Deadline.{max_u64, millisecond, timeout_new}

-- An element of the array `checks`.
pub record CheckDetail : Type 0 where
  pub check : Option Text
  pub status : Option Text

pub record Details : Type 0 where
  pub kind : Option Text
  pub complete : Option Bool
  pub checks : Option (List CheckDetail)
  pub observed_bounds_hash : Option ℕ
  pub transient_ambiguity : Bool

abbrev pub no_details : Details
no_details = record {
  kind = none;
  complete = none;
  checks = none;
  observed_bounds_hash = none;
  transient_ambiguity = false;
}

pub record ActionError : Type 0 where
  pub error : AdapterError
  pub details : Option Details

abbrev pub text_is : Option Text → Text → Bool
text_is o t = is_some_and o (λ s. text_eq s t)

unfoldable pub failed_check : ActionError → Text → Bool
failed_check e check_name = is_some_and e.details (λ details.
    is_some_and details.checks
      (λ checks. any (λ c. text_is c.check check_name && text_is c.status (codes "fail")) checks))

unfoldable pub should_scroll_after_preflight : ActionRequest → ActionError → Bool
unfolding failed_check
should_scroll_after_preflight request e =
    requires_scroll_into_view request.action && failed_check e (codes "visible")

unfoldable pub only_stability_pending : ActionError → Bool
only_stability_pending e = is_some_and e.details (λ details. is_some_and details.checks (λ checks.
    any (λ c. text_is c.check (codes "stable") && not (text_is c.status (codes "pass"))) checks
    && all (λ c. text_is c.check (codes "stable") || text_is c.status (codes "pass")) checks))

abbrev pub observed_hash : ActionError → Option ℕ
observed_hash e = elim e.details [ none ↦ none | some details ↦ details.observed_bounds_hash ]

-- `mark_pre_dispatch_resolution_failure`.
abbrev pub pre_dispatch : DeliverySemantics → DeliverySemantics
pre_dispatch DeliverySemantics.unknown = DeliverySemantics.not_delivered
pre_dispatch DeliverySemantics.not_delivered = DeliverySemantics.not_delivered
pre_dispatch d = d

unfoldable pub mark_pre_dispatch_resolution_failure : ActionError → ActionError
mark_pre_dispatch_resolution_failure e = record e {
  error = record e.error { disposition = pre_dispatch e.error.disposition };
}

abbrev pub is_timeout : ErrorCode → Bool
is_timeout timeout = true
is_timeout _ = false

abbrev pub is_ambiguous_target : ErrorCode → Bool
is_ambiguous_target ambiguous_target = true
is_ambiguous_target _ = false

abbrev pub is_unsafe : RetryDisposition → Bool
is_unsafe unsafe = true
is_unsafe _ = false

unfoldable pub mark_retryable : ActionError → ActionError
mark_retryable e = record {
  error = with_details (some true) e.error;
  details = some (unwrap_or e.details no_details);
}

abbrev pub poll_interval : ℕ
poll_interval = 100 * millisecond

abbrev pub stability_poll_interval : ℕ
stability_poll_interval = 16 * millisecond

abbrev pub resolve_attempt : ℕ
resolve_attempt = 750 * millisecond

pub data ResolveAttemptOutcome (H : Type 0) : Type 0 where
  resolved : H → ResolveAttemptOutcome H
  failed : ActionError → ResolveAttemptOutcome H
  deadline_passed : ResolveAttemptOutcome H

pub record RefActionPollState : Type 0 where
  pub saw_ambiguity : Bool
  pub expected_bounds_hash : Option ℕ
  pub resolve_attempts : ℕ
  pub preflight_attempts : ℕ
  pub live_read_incomplete_only : Option Bool

abbrev pub default_poll_state : RefActionPollState
default_poll_state = record {
  saw_ambiguity = false;
  expected_bounds_hash = none;
  resolve_attempts = 0;
  preflight_attempts = 0;
  live_read_incomplete_only = none;
}

abbrev pub saturating_succ : ℕ → ℕ
saturating_succ n = if ltb n max_u64 then n + 1 else max_u64

-- `StabilityExpectation::strict_hash`.
abbrev pub strict_hash : Option ℕ → StabilityExpectation
strict_hash bounds_hash = record {
  bounds_hash = bounds_hash;
  bounds = none;
  strict = true;
  samples = 1;
  span_ms = 0;
}

abbrev pub stability : RefActionPollState → StabilityExpectation
stability s = strict_hash s.expected_bounds_hash

unfoldable pub is_live_read_incomplete : ActionError → Bool
is_live_read_incomplete e = is_some_and e.details (λ details.
    text_is details.kind (codes "live_element_evidence") && is_some_and details.complete not)

unfoldable pub record_preflight_error : ActionError → RefActionPollState → RefActionPollState
unfolding is_live_read_incomplete
record_preflight_error e s = record s {
  live_read_incomplete_only =
      some (unwrap_or s.live_read_incomplete_only true && is_live_read_incomplete e);
  expected_bounds_hash = or_else (observed_hash e) s.expected_bounds_hash;
}

unfoldable pub record_resolve_error : RefActionPollState → RefActionPollState
record_resolve_error s = record s { live_read_incomplete_only = some false }

unfoldable pub only_live_read_incomplete : RefActionPollState → Bool
only_live_read_incomplete s = unwrap_or s.live_read_incomplete_only false

abbrev pub is_permanent_error : ErrorCode → Bool
is_permanent_error perm_denied = true
is_permanent_error app_not_found = true
is_permanent_error action_not_supported = true
is_permanent_error invalid_args = true
is_permanent_error policy_denied = true
is_permanent_error internal = true
is_permanent_error _ = false

abbrev pub is_stale_or_ambiguous : ErrorCode → Bool
is_stale_or_ambiguous stale_ref = true
is_stale_or_ambiguous ambiguous_target = true
is_stale_or_ambiguous _ = false

unfoldable pub is_permanent_actionability_error : ErrorCode → Bool
is_permanent_actionability_error code = is_permanent_error code || is_stale_or_ambiguous code

abbrev pub live_read_incomplete : ActionError
live_read_incomplete = record {
  error = with_disposition DeliverySemantics.not_delivered (
      with_details (some false) (
        with_suggestion
          "Re-snapshot the window and act on a fresh ref, or fall back to --headed coordinate input from the ref bounds."
          (new action_failed
            "Live reads were incomplete before actionability could be determined")));
  details = some (record no_details { kind = some (codes "live_read_incomplete") });
}

-- `timeout`.
unfoldable pub timeout_of : RefActionPollState → ActionError
unfolding only_live_read_incomplete
timeout_of s = if only_live_read_incomplete s then live_read_incomplete else record {
  error =
      with_disposition DeliverySemantics.not_delivered
        (timeout_new "Target did not become actionable within the wait budget");
  details = some (record no_details {
    kind = some (codes "actionability_timeout");
    transient_ambiguity = s.saw_ambiguity;
  });
}
