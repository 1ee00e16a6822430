-- ===== src/SnapshotId/Fresh.antt =====
-- The ids that `new_snapshot_id` makes.
use native.Mathlib.Nat.{pow-suc}
use agent_desktop.Prelude.{
  ==_iff, Bool, Bool-cases, [], all, all-append, all-replicate, ap, arith, if◌then◌else◌, inl, inr,
  length, length-append, length-replicate, le→leb, ltb, ok, refl, replicate, suc, sym, true, zero,
  ℕ, ◌%◌, ◌&&◌, ◌*◌, ◌++◌, ◌+◌, ◌-◌, ◌/◌, ◌<◌, ◌==◌, ◌^◌, ◌∙◌, ◌∷◌, ◌≡◌, ◌≤◌,
}
use agent_desktop.Text.{Text, codes, len}
use agent_desktop.SnapshotId.{
  base36, base36_digit, fill, is_snapshot_char, is_snapshot_id, min_len, new_snapshot_id,
  validate_snapshot_id,
}

-- The test of every digit below a base.
every_digit : (test : ℕ → Bool) (base : ℕ) → Bool
every_digit test zero = true
every_digit test (suc d) = every_digit test d && test d

every_digit_lem :
    (test : ℕ → Bool) (base digit : ℕ)
    → digit < base
    → every_digit test base ≡ true
    → test digit ≡ true
unfolding every_digit
every_digit_lem test zero digit l t = absurd (omega arith)
every_digit_lem test (suc d) digit l t = ground (arith, every_digit_lem test d digit)

digit_char : (v : ℕ) → is_snapshot_char (base36_digit (v % 36)) ≡ true
digit_char v =
    every_digit_lem (λ d. is_snapshot_char (base36_digit d)) 36 (v % 36) (omega arith)
      (unfold every_digit is_snapshot_char base36_digit in refl)

-- The value of a digit, as an independent reading of ids needs it.
unfoldable pub digit_value : ℕ → ℕ
digit_value c = if ltb c b'a' then c - b'0' else c - 87

digit_value-base36_digit : (v : ℕ) → digit_value (base36_digit (v % 36)) ≡ v % 36
digit_value-base36_digit v = (==_iff _ _).0 (
    every_digit_lem (λ d. digit_value (base36_digit d) == d) 36 (v % 36) (omega arith)
      (unfold every_digit digit_value base36_digit in refl))

fill_chars :
    (i v : ℕ) (buf : Text)
    → all is_snapshot_char buf ≡ true
    → all is_snapshot_char (fill i v buf) ≡ true
unfolding fill
fill_chars zero v buf h = h
fill_chars (suc i) v buf h =
    ground (arith, digit_char v, fill_chars i (v / 36) (base36_digit (v % 36) ∷ buf))

length-fill : (i v : ℕ) (buf : Text) → length (fill i v buf) ≤ i + length buf
unfolding fill
length-fill zero v buf = omega arith
length-fill (suc i) v buf = ground (arith, length-fill i (v / 36) (base36_digit (v % 36) ∷ buf))

-- The characters of an id are of one byte each.
len-snapshot_chars : (s : Text) → all is_snapshot_char s ≡ true → len s ≡ length s
unfolding len is_snapshot_char
len-snapshot_chars [] h = refl
len-snapshot_chars (c ∷ s) h = ground (arith, len-snapshot_chars s)

base36_chars : (v : ℕ) → all is_snapshot_char (base36 v) ≡ true
unfolding base36
base36_chars v =
    all-append is_snapshot_char (replicate (min_len - length written) b'0') written
      (all-replicate is_snapshot_char _ b'0' (unfold is_snapshot_char in refl)) chars
  where
    written : Text
    written = if v == 0 then codes "0" else fill 13 v []

    chars : all is_snapshot_char written ≡ true
    chars = elim (Bool-cases (v == 0)) [
      | inl z ↦ rw z (unfold is_snapshot_char in refl)
      | inr p ↦ rw p (fill_chars 13 v [] refl)
    ]

length-base36 : (v : ℕ) → (4 ≤ length (base36 v)) × (length (base36 v) ≤ 13)
unfolding base36
length-base36 v = (
  omega (
    arith,
    length-append {0} pad written,
    length-replicate {A = ℕ} (min_len - length written) b'0',
  ),
  omega (
    arith,
    length-append {0} pad written,
    length-replicate {A = ℕ} (min_len - length written) b'0',
    short,
  ),
)
  where
    written : Text
    written = if v == 0 then codes "0" else fill 13 v []

    pad : Text
    pad = replicate (min_len - length written) b'0'

    short : length written ≤ 13
    short = elim (Bool-cases (v == 0)) [
      | inl z ↦ rw z (omega arith)
      | inr p ↦ rw p (length-fill 13 v [])
    ]

-- Every id that `new_snapshot_id` makes is accepted by `validate_snapshot_id`.
pub new_snapshot_id_valid : (mixed : ℕ) → validate_snapshot_id (new_snapshot_id mixed) ≡ ok tt
unfolding validate_snapshot_id new_snapshot_id is_snapshot_id
new_snapshot_id_valid mixed =
    rw (valid (base36 mixed) (base36_chars mixed) (length-base36 mixed)) refl
  where
    valid :
        (s : Text)
        → all is_snapshot_char s ≡ true
        → (4 ≤ length s) × (length s ≤ 13)
        → is_snapshot_id (b's' ∷ s) ≡ true
    valid s h b =
        let cs : all is_snapshot_char (b's' ∷ s) ≡ true = rw h (unfold is_snapshot_char in refl) in
        let l : len (b's' ∷ s) ≡ suc (length s) = len-snapshot_chars (b's' ∷ s) cs in
        rw
          (l, cs, le→leb (suc (length s)) 64 (omega arith), le→leb 3 (suc (length s)) (omega arith))
          refl

-- A reading of base-36 text, most significant digit first.
unfoldable pub value_of : ℕ → Text → ℕ
unfolding digit_value
value_of acc [] = acc
value_of acc (c ∷ cs) = value_of (acc * 36 + digit_value c) cs

value_of-fill : (i v : ℕ) (buf : Text) → v < 36 ^ i → value_of 0 (fill i v buf) ≡ value_of v buf
unfolding value_of fill
value_of-fill zero v buf h = ground arith
value_of-fill (suc i) v buf h = elim (Bool-cases (ltb 0 v)) [
  | inl p ↦ rw p (
      value_of-fill i (v / 36) (base36_digit (v % 36) ∷ buf) (omega (arith, pow-suc 36 i))
      ∙ ap (λ (a : ℕ). value_of a buf) (omega (arith, digit_value-base36_digit v)))
  | inr z ↦ ground arith
]

value_of-zeros : (n : ℕ) (s : Text) → value_of 0 (replicate n b'0' ++ s) ≡ value_of 0 s
unfolding value_of
value_of-zeros zero s = refl
value_of-zeros (suc n) s = value_of-zeros n s

-- The value of a 64-bit number can be read off its base-36 text.
value_of-base36 : (v : ℕ) → v < 2 ^ 64 → value_of 0 (base36 v) ≡ v
unfolding base36 value_of
value_of-base36 v h =
    value_of-zeros (min_len - length (if v == 0 then codes "0" else fill 13 v [])) _ ∙ written
  where
    written : value_of 0 (if v == 0 then codes "0" else fill 13 v []) ≡ v
    written = elim (Bool-cases (v == 0)) [
      | inl z ↦ rw z (sym ((==_iff v 0).0 z))
      | inr p ↦ rw p (value_of-fill 13 v [] (omega arith))
    ]

-- Different 64-bit hashes make different ids.
pub new_snapshot_id-injective :
    (a b : ℕ) → a < 2 ^ 64 → b < 2 ^ 64 → new_snapshot_id a ≡ new_snapshot_id b → a ≡ b
unfolding new_snapshot_id
new_snapshot_id-injective a b h k e =
    sym (value_of-base36 a h) ∙ ap (λ t. value_of 0 (rest t)) e ∙ value_of-base36 b k
  where
    rest : Text → Text
    rest [] = []
    rest (c ∷ cs) = cs
