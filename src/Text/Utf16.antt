-- ===== src/Text/Utf16.antt =====
-- `str::encode_utf16` and `String::from_utf16`.
use agent_desktop.Prelude.{
  Bool, List, Option, [], if◌then◌else◌, leb, ltb, map_option, none, some, ℕ, ◌%◌, ◌&&◌, ◌*◌, ◌++◌,
  ◌+◌, ◌-◌, ◌/◌, ◌||◌, ◌∷◌,
}
use agent_desktop.Text.{Text}

-- A Unicode scalar value.
unfoldable pub is_scalar : ℕ → Bool
is_scalar c = ltb c 0xd800 || leb 0xe000 c && ltb c 0x110000

unfoldable pub encode_char : ℕ → List ℕ
encode_char c =
    if ltb c 0x10000
    then c ∷ []
    else (0xd800 + (c - 0x10000) / 0x400) ∷ (0xdc00 + (c - 0x10000) % 0x400) ∷ []

unfoldable pub encode_utf16 : Text → List ℕ
unfolding encode_char
encode_utf16 [] = []
encode_utf16 (c ∷ cs) = encode_char c ++ encode_utf16 cs

abbrev pub is_high : ℕ → Bool
is_high u = leb 0xd800 u && ltb u 0xdc00

abbrev pub is_low : ℕ → Bool
is_low u = leb 0xdc00 u && ltb u 0xe000

-- What a unit does after a high surrogate that waits: the one that waits next, and the text so far.
unfoldable pub decode_unit : Option ℕ → ℕ → Option (Option ℕ × Text)
decode_unit none u =
    if is_high u then some (some u, []) else if is_low u then none else some (none, u ∷ [])
decode_unit (some h) u =
    if is_low u then some (none, (0x10000 + (h - 0xd800) * 0x400 + (u - 0xdc00)) ∷ []) else none

unfoldable pub decode_from : Option ℕ → List ℕ → Option Text
unfolding decode_unit
decode_from none [] = some []
decode_from (some h) [] = none
decode_from waiting (u ∷ us) = elim (decode_unit waiting u) [
  | none ↦ none
  | some (next, text) ↦ map_option (λ rest. text ++ rest) (decode_from next us)
]

unfoldable pub from_utf16 : List ℕ → Option Text
unfolding decode_from
from_utf16 us = decode_from none us
