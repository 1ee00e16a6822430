-- ===== src/Deadline/Rounding.antt =====
-- Deadlines in milliseconds: what `remaining_ms` and `from_duration` round to.
use agent_desktop.Prelude.{
  arith, ℕ, ◌*◌, ◌+◌, ◌<◌, ◌≤◌, true, ◌↔◌, ◌≡◌, >>=-eq-ok, Option, ap, none, ok, ok-injective, some,
}
use agent_desktop.Deadline.{
  millisecond, rounded_ms, Deadline, is_expired, max_u64, remaining, remaining_ms, after, capped,
  detached_after, max_wait_timeout_ms, min_expiry, under_inherited, wait_timeout_duration,
}

pub rounded_ms-covers :
    (duration : ℕ)
    → (duration ≤ rounded_ms duration * millisecond)
      × (rounded_ms duration * millisecond < duration + millisecond)
unfolding rounded_ms
rounded_ms-covers duration = ground arith

-- What is left of a deadline, rounded up to whole milliseconds: never less than what is left, and
-- less than a millisecond more, unless it passes the largest 64-bit number.
pub remaining_ms-covers :
    (d : Deadline) (now : ℕ)
    → remaining d now ≤ max_u64 * millisecond
    → (remaining d now ≤ remaining_ms d now * millisecond)
      × (remaining_ms d now * millisecond < remaining d now + millisecond)
unfolding remaining_ms rounded_ms
remaining_ms-covers d now h = ground arith

pub remaining_ms-zero_iff :
    (d : Deadline) (now : ℕ) → (remaining_ms d now ≡ 0) ↔ (is_expired d now ≡ true)
unfolding remaining_ms rounded_ms is_expired
remaining_ms-zero_iff d now = ground arith

detached_after-window :
    (last now timeout_ms : ℕ) (d : Deadline)
    → detached_after last now timeout_ms ≡ ok d
    → (d.expires_at ≡ now + timeout_ms * millisecond) × (timeout_ms ≤ max_wait_timeout_ms)
unfolding detached_after wait_timeout_duration
detached_after-window last now timeout_ms d e = ground arith

under_inherited_le :
    (inherited : Option Deadline) (d : Deadline)
    → (under_inherited inherited d).expires_at ≤ d.expires_at
unfolding under_inherited min_expiry
under_inherited_le none d = omega arith
under_inherited_le (some parent) d = ground arith

-- A deadline that `after` makes expires within the timeout asked for, which is at most a day.
pub after-window :
    (last : ℕ) (inherited : Option Deadline) (now timeout_ms : ℕ) (d : Deadline)
    → after last inherited now timeout_ms ≡ ok d
    → (d.expires_at ≤ now + timeout_ms * millisecond) × (timeout_ms ≤ max_wait_timeout_ms)
unfolding after
after-window last inherited now timeout_ms d e =
    let (own, made, same) = >>=-eq-ok (detached_after last now timeout_ms) _ e in
    let (window, small) = detached_after-window last now timeout_ms own made in
    let below = under_inherited_le inherited own in
    let equal = ap (λ x. x.expires_at) (ok-injective same) in (omega arith, small)

-- A cap never moves the expiry back, and leaves at most the cap until it.
pub capped_le :
    (last : ℕ) (d : Deadline) (maximum now : ℕ)
    → now + maximum ≤ last
    → ((capped last d maximum now).expires_at ≤ d.expires_at)
      × (remaining (capped last d maximum now) now ≤ maximum)
unfolding capped remaining
capped_le last d maximum now h = ground arith
