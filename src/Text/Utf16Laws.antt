-- ===== src/Text/Utf16Laws.antt =====
-- Text and its UTF-16 units: each is had back from the other.
use agent_desktop.Prelude.{
  &&-true, Bool, Bool-cases, List, Option, [], all, all-append, ap, append_assoc, arith, false, inl,
  inr, ltb, map_option, none, refl, some, subst, sym, true, ℕ, ◌%◌, ◌*◌, ◌++◌, ◌+◌, ◌-◌, ◌/◌, ◌∙◌,
  ◌∷◌, ◌≡◌,
}
use agent_desktop.Text.{Text}
use agent_desktop.Text.Utf16.{
  decode_from, decode_unit, encode_char, encode_utf16, from_utf16, is_high, is_low, is_scalar,
}

abbrev pub is_unit : ℕ → Bool
is_unit u = ltb u 0x10000

-- The units that a surrogate in waiting stands for.
abbrev pending : Option ℕ → List ℕ
pending none = []
pending (some h) = h ∷ []

abbrev IsPending : Option ℕ → Type 0
IsPending none = Unit {0}
IsPending (some h) = is_high h ≡ true

unfoldable UnitKept : Option ℕ → ℕ → Option (Option ℕ × Text) → Type 0
unfolding encode_utf16
UnitKept waiting u none = Unit {0}
UnitKept waiting u (some (next, text)) =
    (encode_utf16 text ++ pending next ≡ pending waiting ++ u ∷ []) × IsPending next

char_of_pair :
    (h u : ℕ)
    → is_high h ≡ true
    → is_low u ≡ true
    → encode_char (0x10000 + (h - 0xd800) * 0x400 + (u - 0xdc00)) ≡ h ∷ u ∷ []
unfolding encode_char
char_of_pair h u p q = ground arith

decode_unit-UnitKept :
    (waiting : Option ℕ) (u : ℕ)
    → is_unit u ≡ true
    → IsPending waiting
    → UnitKept waiting u (decode_unit waiting u)
unfolding UnitKept decode_unit encode_utf16 encode_char
decode_unit-UnitKept none u small w = elim (Bool-cases (is_high u)) [
  | inl high ↦ rw high (refl, high)
  | inr plain ↦ elim (Bool-cases (is_low u)) [
    | inl low ↦ rw (plain, low) tt
    | inr whole ↦ rw (plain, whole, small) (refl, tt)
  ]
]
decode_unit-UnitKept (some h) u small w = elim (Bool-cases (is_low u)) [
  | inr stray ↦ rw stray tt
  | inl low ↦ rw low (rw (char_of_pair h u w low) refl, tt)
]

unfoldable Kept : Option ℕ → List ℕ → Option Text → Type 0
unfolding encode_utf16
Kept waiting us none = Unit {0}
Kept waiting us (some text) = encode_utf16 text ≡ pending waiting ++ us

encode_utf16-append : (s t : Text) → encode_utf16 (s ++ t) ≡ encode_utf16 s ++ encode_utf16 t
unfolding encode_utf16
encode_utf16-append [] t = refl
encode_utf16-append (c ∷ cs) t =
    ap (λ rest. encode_char c ++ rest) (encode_utf16-append cs t)
    ∙ sym (append_assoc (encode_char c) (encode_utf16 cs) (encode_utf16 t))

Kept-append :
    (waiting next : Option ℕ) (u : ℕ) (us : List ℕ) (text : Text) (r : Option Text)
    → encode_utf16 text ++ pending next ≡ pending waiting ++ u ∷ []
    → Kept next us r
    → Kept waiting (u ∷ us) (map_option (λ rest. text ++ rest) r)
unfolding Kept
Kept-append waiting next u us text none e k = tt
Kept-append waiting next u us text (some rest) e k =
    encode_utf16-append text rest
    ∙ ap (λ tail. encode_utf16 text ++ tail) k
    ∙ sym (append_assoc (encode_utf16 text) (pending next) us)
    ∙ ap (λ front. front ++ us) e
    ∙ append_assoc (pending waiting) (u ∷ []) us

decode_from-Kept :
    (waiting : Option ℕ) (us : List ℕ)
    → all is_unit us ≡ true
    → IsPending waiting
    → Kept waiting us (decode_from waiting us)
unfolding decode_from Kept encode_utf16 UnitKept
decode_from-Kept none [] small w = refl
decode_from-Kept (some h) [] small w = tt
decode_from-Kept none (u ∷ us) small w =
    let (first, others) = &&-true (is_unit u) (all is_unit us) small in
    step (decode_unit none u) (decode_unit-UnitKept none u first w)
      (λ next. decode_from-Kept next us others)
  where
    step :
        (x : Option (Option ℕ × Text))
        → UnitKept none u x
        → ((next : Option ℕ) → IsPending next → Kept next us (decode_from next us))
        → Kept none (u ∷ us) (elim x [
          | none ↦ none
          | some (next, text) ↦ map_option (λ rest. text ++ rest) (decode_from next us)
        ])
    step none k later = tt
    step (some (next, text)) k later =
        Kept-append none next u us text (decode_from next us) k.0 (later next k.1)
decode_from-Kept (some h) (u ∷ us) small w =
    let (first, others) = &&-true (is_unit u) (all is_unit us) small in
    step (decode_unit (some h) u) (decode_unit-UnitKept (some h) u first w)
      (λ next. decode_from-Kept next us others)
  where
    step :
        (x : Option (Option ℕ × Text))
        → UnitKept (some h) u x
        → ((next : Option ℕ) → IsPending next → Kept next us (decode_from next us))
        → Kept (some h) (u ∷ us) (elim x [
          | none ↦ none
          | some (next, text) ↦ map_option (λ rest. text ++ rest) (decode_from next us)
        ])
    step none k later = tt
    step (some (next, text)) k later =
        Kept-append (some h) next u us text (decode_from next us) k.0 (later next k.1)

-- Text that units decode to encodes to those units.
pub encode_utf16-from_utf16 :
    (us : List ℕ) (text : Text)
    → all is_unit us ≡ true
    → from_utf16 us ≡ some text
    → encode_utf16 text ≡ us
unfolding from_utf16 Kept
encode_utf16-from_utf16 us text small e = subst (Kept none us) e (decode_from-Kept none us small tt)

unit_plain :
    (c : ℕ) → is_high c ≡ false → is_low c ≡ false → decode_unit none c ≡ some (none, c ∷ [])
unfolding decode_unit
unit_plain c high low = rw (high, low, decode_unit) refl

unit_high : (h : ℕ) → is_high h ≡ true → decode_unit none h ≡ some (some h, [])
unfolding decode_unit
unit_high h high = rw (high, decode_unit) refl

unit_low :
    (h l : ℕ)
    → is_low l ≡ true
    → decode_unit (some h) l ≡ some (none, (0x10000 + (h - 0xd800) * 0x400 + (l - 0xdc00)) ∷ [])
unfolding decode_unit
unit_low h l low = rw (low, decode_unit) refl

decode_one :
    (c : ℕ) (us : List ℕ)
    → is_high c ≡ false
    → is_low c ≡ false
    → decode_from none (c ∷ us) ≡ map_option (λ rest. c ∷ rest) (decode_from none us)
unfolding decode_from
decode_one c us high low = rw (unit_plain c high low, decode_from) refl

append_nothing : (r : Option Text) → map_option (λ rest. [] ++ rest) r ≡ r
append_nothing none = refl
append_nothing (some rest) = refl

decode_two :
    (h l : ℕ) (us : List ℕ)
    → is_high h ≡ true
    → is_low l ≡ true
    → decode_from none (h ∷ l ∷ us)
      ≡ map_option
          (λ rest. (0x10000 + (h - 0xd800) * 0x400 + (l - 0xdc00)) ∷ rest)
          (decode_from none us)
unfolding decode_from
decode_two h l us high low = rw (unit_high h high, unit_low h l low, decode_from) (append_nothing _)

decode_char :
    (c : ℕ) (us : List ℕ)
    → is_scalar c ≡ true
    → decode_from none (encode_char c ++ us) ≡ map_option (λ rest. c ∷ rest) (decode_from none us)
unfolding encode_char is_scalar
decode_char c us s = elim (Bool-cases (ltb c 0x10000)) [
  | inl small ↦ rw small (decode_one c us (ground arith) (ground arith))
  | inr large ↦
      let same : 0x10000
            + (0xd800 + (c - 0x10000) / 0x400 - 0xd800) * 0x400
            + (0xdc00 + (c - 0x10000) % 0x400 - 0xdc00)
          ≡ c =
        ground arith in
      rw large (
        decode_two (0xd800 + (c - 0x10000) / 0x400) (0xdc00 + (c - 0x10000) % 0x400) us
          (ground arith) (ground arith)
        ∙ ap (λ x. map_option (λ rest. x ∷ rest) (decode_from none us)) same)
]

-- Text decodes back from its units.
pub from_utf16-encode_utf16 :
    (text : Text) → all is_scalar text ≡ true → from_utf16 (encode_utf16 text) ≡ some text
unfolding from_utf16 encode_utf16
from_utf16-encode_utf16 [] s = refl
from_utf16-encode_utf16 (c ∷ cs) s =
    let (first, others) = &&-true (is_scalar c) (all is_scalar cs) s in
    decode_char c (encode_utf16 cs) first
    ∙ ap (map_option (λ rest. c ∷ rest)) (from_utf16-encode_utf16 cs others)

encode_char_units : (c : ℕ) → is_scalar c ≡ true → all is_unit (encode_char c) ≡ true
unfolding encode_char is_scalar
encode_char_units c s = ground arith

pub encode_utf16_units :
    (text : Text) → all is_scalar text ≡ true → all is_unit (encode_utf16 text) ≡ true
unfolding encode_utf16
encode_utf16_units [] s = refl
encode_utf16_units (c ∷ cs) s =
    let (first, others) = &&-true (is_scalar c) (all is_scalar cs) s in
    all-append is_unit (encode_char c) (encode_utf16 cs) (encode_char_units c first)
      (encode_utf16_units cs others)
