-- ===== src/SnapshotId.antt =====
-- Snapshot ids: `new_snapshot_id`, `base36` and `validate_snapshot_id` of crates/core/src/refs.rs.
pub mod Fresh
use agent_desktop.Prelude.{
  Bool, Result, [], all, get_elem?, guard, if◌then◌else◌, leb, length, ltb, replicate, suc,
  unwrap_or, zero, ℕ, ◌%◌, ◌&&◌, ◌++◌, ◌-◌, ◌/◌, ◌==◌, ◌||◌, ◌∷◌,
}
use agent_desktop.Text.{Text, codes, is_ascii_alphanumeric, len}
use agent_desktop.Error.{AppError, invalid_input}

abbrev pub base36_digits : Text
base36_digits = codes "0123456789abcdefghijklmnopqrstuvwxyz"

abbrev pub min_len : ℕ
min_len = 4

-- `DIGITS[d]`; the index is a remainder by 36, so it is always in range.
unfoldable pub base36_digit : ℕ → ℕ
base36_digit d = unwrap_or (get_elem? base36_digits d) 0

-- The loop that fills the buffer from its end; the fuel is the length of the buffer.
unfoldable pub fill : ℕ → ℕ → Text → Text
unfolding base36_digit
fill zero value buf = buf
fill (suc i) value buf =
    let rest = fill i (value / 36) (base36_digit (value % 36) ∷ buf) in
    if ltb 0 value then rest else buf

unfoldable pub base36 : ℕ → Text
unfolding fill
base36 value =
    let written = if value == 0 then codes "0" else fill 13 value [] in
    replicate (min_len - length written) b'0' ++ written

-- `mixed` is the hash of the time, the process id and a counter.
unfoldable pub new_snapshot_id : ℕ → Text
unfolding base36
new_snapshot_id mixed = b's' ∷ base36 mixed

unfoldable pub is_snapshot_char : ℕ → Bool
unfolding is_ascii_alphanumeric
is_snapshot_char c = is_ascii_alphanumeric c || c == b'-' || c == b'_'

unfoldable pub is_snapshot_id : Text → Bool
unfolding len is_snapshot_char
is_snapshot_id s = leb (len s) 64 && (leb 3 (len s) && all is_snapshot_char s)

abbrev pub invalid_snapshot_id : AppError
invalid_snapshot_id =
    invalid_input "Invalid snapshot_id '{snapshot_id}': use the value returned by snapshot"

unfoldable pub validate_snapshot_id : Text → Result AppError (Unit {0})
unfolding is_snapshot_id
validate_snapshot_id s = guard (is_snapshot_id s) invalid_snapshot_id
