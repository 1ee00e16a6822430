-- ===== src/PostAction/Insertion.antt =====
-- The text that typing is expected to leave.
use agent_desktop.Prelude.{
  &&-intro, &&-true, Bool, List, [], all, all-append, arith, refl, some, suc, take, true, zero, ℕ,
  ◌++◌, ◌∷◌, ◌≡◌,
}
use agent_desktop.Text.{Text}
use agent_desktop.Text.Utf16.{encode_utf16, from_utf16, is_scalar}
use agent_desktop.Text.Utf16Laws.{encode_utf16-from_utf16, encode_utf16_units, is_unit}
use agent_desktop.PostAction.{drop, expected_insertion, insert_at}

all-take : (p : ℕ → Bool) (n : ℕ) (us : List ℕ) → all p us ≡ true → all p (take n us) ≡ true
all-take p zero us h = refl
all-take p (suc n) [] h = refl
all-take p (suc n) (u ∷ us) h =
    let (first, others) = &&-true (p u) (all p us) h in
    &&-intro (p u) (all p (take n us)) first (all-take p n us others)

all-drop : (p : ℕ → Bool) (n : ℕ) (us : List ℕ) → all p us ≡ true → all p (drop n us) ≡ true
all-drop p zero us h = h
all-drop p (suc n) [] h = refl
all-drop p (suc n) (u ∷ us) h = all-drop p n us (&&-true (p u) (all p us) h).1

insert_at-splices :
    (before text after_it : Text) (start stop : ℕ)
    → insert_at before text (start, stop) ≡ some after_it
    → from_utf16
        (take start (encode_utf16 before) ++ encode_utf16 text ++ drop stop (encode_utf16 before))
      ≡ some after_it
unfolding insert_at
insert_at-splices before text after_it start stop e = ground arith

-- Where a selection is known, the text expected has the UTF-16 units of the text before, with those
-- of the selection replaced by those of the text typed.
pub expected_insertion-splices :
    (before text after_it : Text) (start stop : ℕ)
    → all is_scalar before ≡ true
    → all is_scalar text ≡ true
    → expected_insertion before text (some (start, stop)) ≡ some after_it
    → encode_utf16 after_it
      ≡ take start (encode_utf16 before) ++ encode_utf16 text ++ drop stop (encode_utf16 before)
unfolding expected_insertion
expected_insertion-splices before text after_it start stop s t e =
    let units = encode_utf16_units before s in
    encode_utf16-from_utf16
      (take start (encode_utf16 before) ++ encode_utf16 text ++ drop stop (encode_utf16 before))
      after_it
      (all-append is_unit (take start (encode_utf16 before) ++ encode_utf16 text)
        (drop stop (encode_utf16 before))
        (all-append is_unit (take start (encode_utf16 before)) (encode_utf16 text)
          (all-take is_unit start (encode_utf16 before) units) (encode_utf16_units text t))
        (all-drop is_unit stop (encode_utf16 before) units))
      (insert_at-splices before text after_it start stop e)
