-- ===== src/Text/Decimal.antt =====
-- `format!("{n}")` and `parse::<u32>()`: decimal numbers of 32 bits.
use agent_desktop.Prelude.{
  Option, [], if◌then◌else◌, leb, ltb, none, some, suc, zero, ℕ, ◌%◌, ◌*◌, ◌++◌, ◌+◌, ◌-◌, ◌/◌,
  ◌==◌, ◌∷◌,
}
use agent_desktop.Text.{Text, is_ascii_digit}

abbrev pub u32_max : ℕ
u32_max = 4294967295

-- The digits of a number, on a fuel that bounds how many there are.
unfoldable pub digits : ℕ → ℕ → Text
digits zero n = []
digits (suc f) n =
    let rest = digits f (n / 10) in
    if ltb n 10 then (b'0' + n) ∷ [] else rest ++ ((b'0' + n % 10) ∷ [])

-- `Display` of a `u32`: at most ten digits.
unfoldable pub show_u32 : ℕ → Text
unfolding digits
show_u32 n = digits 10 n

-- The loop of `u32::from_str`: a digit that is none, or a value past `u32::MAX`, is an error.
unfoldable pub parse_digits : ℕ → Text → Option ℕ
unfolding is_ascii_digit
parse_digits acc [] = some acc
parse_digits acc (c ∷ cs) =
    let rest = parse_digits (acc * 10 + (c - b'0')) cs in
    if is_ascii_digit c then (if leb (acc * 10 + (c - b'0')) u32_max then rest else none) else none

-- `str::parse::<u32>`: one leading `+` is accepted, and no digits are an error.
unfoldable pub parse_u32 : Text → Option ℕ
unfolding parse_digits
parse_u32 [] = none
parse_u32 (c ∷ []) = if c == b'+' then none else parse_digits 0 (c ∷ [])
parse_u32 (c ∷ d ∷ ds) = if c == b'+' then parse_digits 0 (d ∷ ds) else parse_digits 0 (c ∷ d ∷ ds)
