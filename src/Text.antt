-- ===== src/Text.antt =====
-- Text, as the strings of the Rust sources: a list of Unicode scalar values. `len` counts UTF-8
-- bytes, as `str::len` does. The standard library's operations on text that the code uses.
pub mod Laws
pub mod Utf16
pub mod Utf16Laws
pub mod Decimal
pub mod DecimalLaws
use agent_desktop.Prelude.{
  Bool, List, Option, String, [], any, false, if◌then◌else◌, leb, ltb, map, none, some, true, ℕ,
  ◌&&◌, ◌+◌, ◌==◌, ◌||◌, ◌∷◌,
}
use Prim.Native.Char.{code}

abbrev pub Text : Type 0
Text = List ℕ

-- A literal of the source.
abbrev pub codes : String → Text
codes String.[] = []
codes (String.◌∷◌ c s) = code c ∷ codes s

-- `char::len_utf8`.
unfoldable pub len_utf8 : ℕ → ℕ
len_utf8 c = if ltb c 0x80 then 1 else if ltb c 0x800 then 2 else if ltb c 0x10000 then 3 else 4

-- `str::len`.
unfoldable pub len : Text → ℕ
unfolding len_utf8
len [] = 0
len (c ∷ cs) = len_utf8 c + len cs

-- `==` on strings.
unfoldable pub text_eq : Text → Text → Bool
text_eq [] [] = true
text_eq [] (d ∷ ds) = false
text_eq (c ∷ cs) [] = false
text_eq (c ∷ cs) (d ∷ ds) = c == d && text_eq cs ds

-- `Option<&str> == Option<&str>`.
unfoldable pub option_text_eq : Option Text → Option Text → Bool
unfolding text_eq
option_text_eq none none = true
option_text_eq none (some b) = false
option_text_eq (some a) none = false
option_text_eq (some a) (some b) = text_eq a b

-- `[&str]::contains`.
unfoldable pub text_in : List Text → Text → Bool
unfolding text_eq
text_in ts t = any (λ u. text_eq u t) ts

-- `char::is_whitespace`: the Unicode property White_Space.
unfoldable pub is_whitespace : ℕ → Bool
is_whitespace c =
    (leb 9 c && leb c 13)
    || c == 32
    || c == 0x85
    || c == 0xa0
    || c == 0x1680
    || (leb 0x2000 c && leb c 0x200a)
    || c == 0x2028
    || c == 0x2029
    || c == 0x202f
    || c == 0x205f
    || c == 0x3000

unfoldable pub trim_start : Text → Text
unfolding is_whitespace
trim_start [] = []
trim_start (c ∷ cs) = if is_whitespace c then trim_start cs else c ∷ cs

-- A trailing character is dropped where only whitespace follows.
unfoldable pub trim_end : Text → Text
unfolding is_whitespace
trim_end [] = []
trim_end (c ∷ cs) =
    let rest = trim_end cs in
    elim rest [ [] ↦ (if is_whitespace c then [] else c ∷ []) | d ∷ ds ↦ c ∷ d ∷ ds ]

-- `str::trim`.
unfoldable pub trim : Text → Text
unfolding trim_start trim_end
trim s = trim_end (trim_start s)

-- `s.trim().is_empty()`.
unfoldable pub is_blank : Text → Bool
unfolding trim
is_blank s = elim (trim s) [ [] ↦ true | c ∷ cs ↦ false ]

-- `char::to_ascii_lowercase`.
unfoldable pub ascii_lower : ℕ → ℕ
ascii_lower c = if leb b'A' c && leb c b'Z' then c + 32 else c

-- `str::to_ascii_lowercase`.
unfoldable pub to_ascii_lowercase : Text → Text
unfolding ascii_lower
to_ascii_lowercase s = map ascii_lower s

unfoldable pub is_ascii_digit : ℕ → Bool
is_ascii_digit c = leb b'0' c && leb c b'9'

unfoldable pub is_ascii_alphanumeric : ℕ → Bool
unfolding is_ascii_digit
is_ascii_alphanumeric c =
    is_ascii_digit c || (leb b'A' c && leb c b'Z') || (leb b'a' c && leb c b'z')

-- `str::strip_prefix`.
unfoldable pub strip_prefix : Text → Text → Option Text
strip_prefix [] s = some s
strip_prefix (p ∷ ps) [] = none
strip_prefix (p ∷ ps) (c ∷ cs) = if p == c then strip_prefix ps cs else none

-- `str::rsplit_once`: the split at the last occurrence of the separator.
unfoldable pub rsplit_once : Text → Text → Option (Text × Text)
unfolding strip_prefix
rsplit_once sep [] = none
rsplit_once sep (c ∷ cs) =
    let here = strip_prefix sep (c ∷ cs) in
    elim (rsplit_once sep cs) [
      | some (before, after) ↦ some (c ∷ before, after)
      | none ↦ elim here [ none ↦ none | some after ↦ some ([], after) ]
    ]

-- `str::contains` with a text.
unfoldable pub contains_text : Text → Text → Bool
unfolding strip_prefix
contains_text sep [] = elim (strip_prefix sep []) [ none ↦ false | some r ↦ true ]
contains_text sep (c ∷ cs) = elim (strip_prefix sep (c ∷ cs)) [
  | none ↦ contains_text sep cs
  | some r ↦ true
]
