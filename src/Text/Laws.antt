-- ===== src/Text/Laws.antt =====
-- Laws of the operations on text.
use agent_desktop.Prelude.{
  Bool-cases, [], arith, false, inl, inr, refl, true, ℕ, ◌∷◌, ◌≡◌, Option, Option-cases, none, some,
  ◌++◌, ◌≢◌,
}
use agent_desktop.Text.{
  Text, ascii_lower, is_whitespace, text_eq, to_ascii_lowercase, trim, trim_end, trim_start,
  rsplit_once, strip_prefix,
}

pub text_eq→eq : (s t : Text) → text_eq s t ≡ true → s ≡ t
unfolding text_eq
text_eq→eq [] [] h = refl
text_eq→eq [] (d ∷ t) h = cc
text_eq→eq (c ∷ s) [] h = cc
text_eq→eq (c ∷ s) (d ∷ t) h = ground (arith, text_eq→eq s t)

pub text_eq_refl : (s : Text) → text_eq s s ≡ true
unfolding text_eq
text_eq_refl [] = refl
text_eq_refl (c ∷ s) = ground (arith, text_eq_refl s)

is_whitespace-ascii_lower : (c : ℕ) → is_whitespace (ascii_lower c) ≡ is_whitespace c
unfolding is_whitespace ascii_lower
is_whitespace-ascii_lower c = ground arith

ascii_lower_idem : (c : ℕ) → ascii_lower (ascii_lower c) ≡ ascii_lower c
unfolding ascii_lower
ascii_lower_idem c = ground arith

pub lower_idem : (s : Text) → to_ascii_lowercase (to_ascii_lowercase s) ≡ to_ascii_lowercase s
unfolding to_ascii_lowercase
lower_idem [] = refl
lower_idem (c ∷ s) = cc (ascii_lower_idem c, lower_idem s)

trim_start-lower :
    (s : Text) → trim_start (to_ascii_lowercase s) ≡ to_ascii_lowercase (trim_start s)
unfolding trim_start to_ascii_lowercase
trim_start-lower [] = refl
trim_start-lower (c ∷ s) = ground (arith, is_whitespace-ascii_lower c, trim_start-lower s)

trim_end-lower : (s : Text) → trim_end (to_ascii_lowercase s) ≡ to_ascii_lowercase (trim_end s)
unfolding trim_end to_ascii_lowercase
trim_end-lower [] = refl
trim_end-lower (c ∷ s) = ground (arith, is_whitespace-ascii_lower c, trim_end-lower s)

-- What `trim_end` leaves of a text that starts with no whitespace starts with the same character.
trim_end-cons :
    (c : ℕ) (s : Text) → is_whitespace c ≡ false → (r : Text) × (trim_end (c ∷ s) ≡ c ∷ r)
unfolding trim_end
trim_end-cons c s h = cases (trim_end s) refl
  where
    cases : (t : Text) → trim_end s ≡ t → (r : Text) × (trim_end (c ∷ s) ≡ c ∷ r)
    cases [] e = ([], ground arith)
    cases (d ∷ ds) e = (d ∷ ds, ground arith)

trim_end_idem : (s : Text) → trim_end (trim_end s) ≡ trim_end s
unfolding trim_end
trim_end_idem [] = refl
trim_end_idem (c ∷ s) = ground (arith, trim_end_idem s)

trim_start-trim_end-trim_start :
    (s : Text) → trim_start (trim_end (trim_start s)) ≡ trim_end (trim_start s)
unfolding trim_start
trim_start-trim_end-trim_start [] = unfold trim_end in refl
trim_start-trim_end-trim_start (c ∷ s) = elim (Bool-cases (is_whitespace c)) [
  | inl w ↦ rw w (trim_start-trim_end-trim_start s)
  | inr b ↦ rw b (let (r, e) = trim_end-cons c s b in rw e (rw b refl))
]

pub trim_idem : (s : Text) → trim (trim s) ≡ trim s
unfolding trim
trim_idem s = rw (trim_start-trim_end-trim_start s) (trim_end_idem (trim_start s))

pub trim-lower : (s : Text) → trim (to_ascii_lowercase s) ≡ to_ascii_lowercase (trim s)
unfolding trim
trim-lower s = rw (trim_start-lower s, trim_end-lower (trim_start s)) refl

-- The normal form of a token, trimmed and in lower case, is its own normal form.
pub lower_trim_idem :
    (s : Text)
    → to_ascii_lowercase (trim (to_ascii_lowercase (trim s))) ≡ to_ascii_lowercase (trim s)
lower_trim_idem s = rw (trim-lower (trim s), trim_idem s, lower_idem (trim s)) refl

-- What `strip_prefix` returns is the text without the prefix.
pub strip_prefix_join : (p s r : Text) → strip_prefix p s ≡ some r → s ≡ p ++ r
unfolding strip_prefix
strip_prefix_join [] s r h = cc
strip_prefix_join (c ∷ p) [] r h = cc
strip_prefix_join (c ∷ p) (d ∷ s) r h = ground (arith, strip_prefix_join p s r)

pub strip_prefix-append : (p r : Text) → strip_prefix p (p ++ r) ≡ some r
unfolding strip_prefix
strip_prefix-append [] r = refl
strip_prefix-append (c ∷ p) r = ground (arith, strip_prefix-append p r)

-- `rsplit_once` splits the text at an occurrence of the separator.
pub rsplit_once_join : (sep t s r : Text) → rsplit_once sep t ≡ some (s, r) → t ≡ s ++ (sep ++ r)
unfolding rsplit_once
rsplit_once_join sep [] s r h = cc
rsplit_once_join sep (c ∷ t) s r h =
    later (rsplit_once sep t) refl (λ b a. rsplit_once_join sep t b a)
  where
    later :
        (o : Option (Text × Text))
        → rsplit_once sep t ≡ o
        → ((b a : Text) → rsplit_once sep t ≡ some (b, a) → t ≡ b ++ (sep ++ a))
        → c ∷ t ≡ s ++ (sep ++ r)
    later (some (b, a)) e ih =
        let q : ◌≡◌ {A = Option (Text × Text)} (some (c ∷ b, a)) (some (s, r)) =
          rw (e, rsplit_once) at h in
        ground (arith, ih b a e)
    later none e ih = elim (Option-cases (strip_prefix sep (c ∷ t))) [
      | inl n ↦ ground arith
      | inr (a, k) ↦ ground (arith, strip_prefix_join sep (c ∷ t) a k)
    ]

pub text_ne : (s t : Text) → s ≢ t → text_eq s t ≡ false
text_ne s t h = ground (arith, text_eq→eq s t)
