-- ===== src/Text/DecimalLaws.antt =====
-- Printing and reading of 32-bit decimal numbers.
use agent_desktop.Text.Decimal.{digits, parse_digits, parse_u32, u32_max, show_u32}
use mathlib.Core.Option.{some-injective}
use native.Mathlib.Nat.{pow-suc}
use agent_desktop.Prelude.{
  Bool-cases, [], all, all-append, append_assoc, arith, inl, inr, length, length-append, ltb, refl,
  suc, true, zero, ℕ, ◌%◌, ◌++◌, ◌+◌, ◌/◌, ◌<◌, ◌^◌, ◌∷◌, ◌≡◌, ◌≤◌, &&-true, ap, append-nil, false,
  le→leb, some, subst, sym, ◌*◌, ◌-◌, ◌∙◌,
}
use agent_desktop.Text.{Text, is_ascii_digit}

last_digit :
    (n : ℕ) (rest : Text)
    → n ≤ u32_max
    → parse_digits (n / 10) ((b'0' + n % 10) ∷ rest) ≡ parse_digits n rest
unfolding parse_digits
last_digit n rest b =
    let e : n / 10 * 10 + (b'0' + n % 10 - b'0') ≡ n = omega arith in
    let d : is_ascii_digit (b'0' + n % 10) ≡ true = ground arith in
    rw (d, e, le→leb n u32_max b) refl

shorter : (f n : ℕ) → n < 10 ^ suc f → ltb n 10 ≡ false → (0 < f) × (n / 10 < 10 ^ f)
shorter zero n h big = absurd (ground (arith, pow-suc 10 zero))
shorter (suc f) n h big = (omega arith, omega (arith, pow-suc 10 (suc f)))

-- Reading the digits of a number leaves the number as the accumulator.
pub parse_digits-digits :
    (f n : ℕ) (rest : Text)
    → 0 < f
    → n < 10 ^ f
    → n ≤ u32_max
    → parse_digits 0 (digits f n ++ rest) ≡ parse_digits n rest
unfolding parse_digits digits
parse_digits-digits zero n rest z h b = absurd (omega arith)
parse_digits-digits (suc f) n rest z h b = elim (Bool-cases (ltb n 10)) [
  | inl small ↦ rw small (ground arith)
  | inr big ↦
      let (pos, below) = shorter f n h big in
      rw (big, append_assoc)
        (parse_digits-digits f (n / 10) ((b'0' + n % 10) ∷ rest) pos below (omega arith)
          ∙ last_digit n rest b)
]

pub digits-are_digits : (f n : ℕ) → all is_ascii_digit (digits f n) ≡ true
unfolding digits is_ascii_digit
digits-are_digits zero n = refl
digits-are_digits (suc f) n = elim (Bool-cases (ltb n 10)) [
  | inl small ↦ rw small (ground arith)
  | inr big ↦ rw big (
      all-append is_ascii_digit (digits f (n / 10)) _ (digits-are_digits f (n / 10)) (ground arith))
]

pub length-digits : (f n : ℕ) → length (digits f n) ≤ f
unfolding digits
length-digits zero n = omega arith
length-digits (suc f) n =
    ground
      (arith, length-digits f (n / 10), length-append (digits f (n / 10)) ((b'0' + n % 10) ∷ []))

pub digits-cons : (f n : ℕ) → 0 < f → (c : ℕ) × (cs : Text) × (digits f n ≡ c ∷ cs)
unfolding digits
digits-cons zero n z = absurd (omega arith)
digits-cons (suc f) n z = elim (Bool-cases (ltb n 10)) [
  | inl small ↦ (b'0' + n, [], rw small refl)
  | inr big ↦ rw big (shape (digits f (n / 10)))
]
  where
    shape : (ds : Text) → (c : ℕ) × (cs : Text) × (ds ++ ((b'0' + n % 10) ∷ []) ≡ c ∷ cs)
    shape [] = (b'0' + n % 10, [], refl)
    shape (d ∷ ds) = (d, ds ++ ((b'0' + n % 10) ∷ []), refl)

-- A number of at least one digit is read without its sign.
pub parse_u32-digits :
    (c : ℕ) (cs : Text) → is_ascii_digit c ≡ true → parse_u32 (c ∷ cs) ≡ parse_digits 0 (c ∷ cs)
unfolding parse_u32 is_ascii_digit
parse_u32-digits c [] h = ground arith
parse_u32-digits c (d ∷ ds) h = ground arith

show_u32-digits : (n : ℕ) → all is_ascii_digit (show_u32 n) ≡ true
unfolding show_u32
show_u32-digits n = digits-are_digits 10 n

-- Every 32-bit number is read back from its decimal form.
pub parse_u32-show_u32 : (n : ℕ) → n ≤ u32_max → parse_u32 (show_u32 n) ≡ some n
unfolding show_u32
parse_u32-show_u32 n b =
    let (c, cs, e) = digits-cons 10 n (omega arith) in
    let first : is_ascii_digit c ≡ true =
      (&&-true _ _ (subst (λ t. all is_ascii_digit t ≡ true) e (digits-are_digits 10 n))).0 in
    rw e (
      parse_u32-digits c cs first
      ∙ ap (parse_digits 0) (sym e ∙ sym (append-nil (digits 10 n)))
      ∙ parse_digits-digits 10 n [] (omega arith) (omega arith) b
      ∙ (unfold parse_digits in refl))

-- Two numbers with the same decimal form are equal.
pub show_u32-injective : (m n : ℕ) → m ≤ u32_max → n ≤ u32_max → show_u32 m ≡ show_u32 n → m ≡ n
show_u32-injective m n h k e =
    some-injective m n (sym (parse_u32-show_u32 m h) ∙ ap parse_u32 e ∙ parse_u32-show_u32 n k)

parse_digits-le : (acc n : ℕ) (s : Text) → acc ≤ u32_max → parse_digits acc s ≡ some n → n ≤ u32_max
unfolding parse_digits
parse_digits-le acc n [] h e = ground arith
parse_digits-le acc n (c ∷ s) h e = ground (arith, parse_digits-le (acc * 10 + (c - b'0')) n s)

-- What `parse_u32` accepts fits into 32 bits.
pub parse_u32-le : (s : Text) (n : ℕ) → parse_u32 s ≡ some n → n ≤ u32_max
unfolding parse_u32
parse_u32-le [] n e = cc
parse_u32-le (c ∷ []) n e = ground (arith, parse_digits-le 0 n (c ∷ []))
parse_u32-le (c ∷ d ∷ ds) n e =
    ground (arith, parse_digits-le 0 n (d ∷ ds), parse_digits-le 0 n (c ∷ d ∷ ds))
