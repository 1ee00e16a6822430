-- ===== src/Deadline.antt =====
-- crates/core/src/deadline.rs and wait_budget.rs: the deadline of an operation and the scopes that
-- inherit it. An instant and a duration are a number of nanoseconds, at the platform's clock: `last`
-- is the latest instant that an `Instant` holds, and `now`, an argument, is `Instant::now()`. The
-- thread's `INHERITED_DEADLINE` is an argument and a result.
pub mod Rounding
pub mod Scopes
use agent_desktop.Prelude.{
  Bool, Option, Result, String, err, false, guard, if◌then◌else◌, leb, ltb, none, ok, ok_or, some,
  unwrap_or, ℕ, ◌%◌, ◌*◌, ◌+◌, ◌-◌, ◌/◌, ◌==◌, ◌>>=◌, ◌>>◌, ◌||◌,
}
use agent_desktop.Error.{AdapterError, invalid_args, new, timeout, with_suggestion}

-- Nanoseconds in a millisecond.
abbrev pub millisecond : ℕ
millisecond = 1000000

abbrev pub max_u64 : ℕ
max_u64 = 18446744073709551615

abbrev pub max_wait_timeout_ms : ℕ
max_wait_timeout_ms = 24 * 60 * 60 * 1000

abbrev pub default_operation_timeout_ms : ℕ
default_operation_timeout_ms = 5000

abbrev pub timeout_too_long : AdapterError
timeout_too_long =
    with_suggestion "Choose a timeout between 0 and {MAX_WAIT_TIMEOUT_MS} milliseconds"
      (new invalid_args "Timeout exceeds the {MAX_WAIT_TIMEOUT_MS}ms maximum")

unfoldable pub wait_timeout_duration : ℕ → Result AdapterError ℕ
wait_timeout_duration timeout_ms =
    if ltb max_wait_timeout_ms timeout_ms
    then err timeout_too_long
    else ok (timeout_ms * millisecond)

pub record Deadline : Type 0 where
  pub started_at : ℕ
  pub expires_at : ℕ
  pub timeout_ms : ℕ
  pub was_capped : Bool

abbrev pub min : ℕ → ℕ → ℕ
min a b = if leb a b then a else b

unfoldable pub min_expiry : Deadline → Deadline → Deadline
min_expiry d other = record d {
  was_capped = d.was_capped || ltb other.expires_at d.expires_at;
  expires_at = min d.expires_at other.expires_at;
}

-- `inherited.get().map_or(deadline, |parent| deadline.min_expiry(parent))`.
unfoldable pub under_inherited : Option Deadline → Deadline → Deadline
unfolding min_expiry
under_inherited none d = d
under_inherited (some parent) d = min_expiry d parent

-- `Duration::as_millis`, rounded up by the test on `subsec_nanos`.
unfoldable pub rounded_ms : ℕ → ℕ
rounded_ms duration =
    let whole_ms = duration / millisecond in
    if duration % 1000000000 % millisecond == 0 then whole_ms else whole_ms + 1

unfoldable pub remaining : Deadline → ℕ → ℕ
remaining d now = d.expires_at - now

unfoldable pub is_expired : Deadline → ℕ → Bool
unfolding remaining
is_expired d now = remaining d now == 0

-- `AdapterError::timeout`.
abbrev pub timeout_new : String → AdapterError
timeout_new m = with_suggestion "The target application may be busy or unresponsive" (new timeout m)

abbrev pub timeout_error : AdapterError
timeout_error = timeout_new "Operation exceeded its deadline"

unfoldable pub remaining_slice : Deadline → ℕ → ℕ → Result AdapterError ℕ
unfolding remaining
remaining_slice d maximum now =
    if remaining d now == 0 then err timeout_error else ok (min (remaining d now) maximum)

unfoldable pub remaining_ms : Deadline → ℕ → ℕ
unfolding remaining rounded_ms
remaining_ms d now = min (rounded_ms (remaining d now)) max_u64

module _ (last : ℕ) where
  -- `Instant::checked_add`.
  abbrev pub checked_add : ℕ → ℕ → Option ℕ
  checked_add instant duration =
      if leb (instant + duration) last then some (instant + duration) else none

  unfoldable pub detached_after : ℕ → ℕ → Result AdapterError Deadline
  unfolding wait_timeout_duration
  detached_after now timeout_ms = wait_timeout_duration timeout_ms >>= λ duration.
      ok_or (checked_add now duration) (new invalid_args "Timeout cannot be represented safely")
      >>= λ expires_at. ok (record {
        started_at = now;
        expires_at = expires_at;
        timeout_ms = timeout_ms;
        was_capped = false;
      })

  unfoldable pub after : Option Deadline → ℕ → ℕ → Result AdapterError Deadline
  unfolding detached_after under_inherited
  after inherited now timeout_ms =
      detached_after now timeout_ms >>= λ d. ok (under_inherited inherited d)

  -- `Deadline::at` is `after` from an instant that the caller has.
  unfoldable pub at : Option Deadline → ℕ → ℕ → Result AdapterError Deadline
  unfolding wait_timeout_duration under_inherited
  at inherited started_at timeout_ms = wait_timeout_duration timeout_ms >>= λ duration.
      ok_or (checked_add started_at duration)
        (new invalid_args "Timeout cannot be represented safely")
      >>= λ expires_at. ok (
          under_inherited inherited (record {
            started_at = started_at;
            expires_at = expires_at;
            timeout_ms = timeout_ms;
            was_capped = false;
          }))

  unfoldable pub standard : Option Deadline → ℕ → Result AdapterError Deadline
  unfolding after
  standard inherited now = after inherited now default_operation_timeout_ms

  unfoldable pub from_duration : Option Deadline → ℕ → ℕ → Result AdapterError Deadline
  unfolding after rounded_ms
  from_duration inherited now duration =
      guard (leb (rounded_ms duration) max_u64) (new invalid_args "Timeout is too large")
      >> after inherited now (rounded_ms duration)

  unfoldable pub capped : Deadline → ℕ → ℕ → Deadline
  capped d maximum now =
      expiring_at (elim (checked_add now maximum) [
        | none ↦ d.expires_at
        | some slice ↦ min d.expires_at slice
      ])
    where
      expiring_at : ℕ → Deadline
      expiring_at expires_at = record d {
        was_capped = d.was_capped || ltb expires_at d.expires_at;
        expires_at = expires_at;
      }

  unfoldable pub extended_by : Option Deadline → Deadline → ℕ → Deadline
  unfolding under_inherited
  extended_by inherited d pause =
      under_inherited inherited
        (record d { expires_at = unwrap_or (checked_add d.expires_at pause) d.expires_at })

-- `enter_scope`: the deadline that the scope puts in place; the guard keeps the previous one.
unfoldable pub effective : Option Deadline → Option Deadline → Option Deadline
unfolding min_expiry
effective (some parent) (some child) = some (min_expiry child parent)
effective (some parent) none = some parent
effective none child = child

pub record DeadlineScope : Type 0 where
  pub previous : Option Deadline

-- The thread's deadline and the guard.
unfoldable pub enter_scope : Option Deadline → Option Deadline → Option Deadline × DeadlineScope
unfolding effective
enter_scope inherited deadline = (effective inherited deadline, record { previous = inherited })

-- `Drop for DeadlineScope`: whatever is in place, the previous deadline comes back.
unfoldable pub drop_scope : DeadlineScope → Option Deadline → Option Deadline
drop_scope scope inherited = scope.previous
