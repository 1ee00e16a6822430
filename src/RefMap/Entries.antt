-- ===== src/RefMap/Entries.antt =====
-- Laws of the entries of a ref map: lookup, insertion, retention and distinct keys.
use agent_desktop.Prelude.{
  Bool, Bool-cases, [], arith, false, if◌then◌else◌, inl, inr, keep_if, none, refl, some, true, ◌↔◌,
  ◌∷◌, ◌≡◌,
}
use agent_desktop.Text.{Text, text_eq}
use agent_desktop.Text.Laws.{text_eq_refl, text_eq→eq}
use agent_desktop.RefEntry.{RefEntry}
use agent_desktop.RefMap.{Entries, insert, lookup, retain}

-- Equality of texts, in the form that `ground` takes at a pair.
pub text_eq_iff : (s t : Text) → (text_eq s t ≡ true) ↔ (s ≡ t)
text_eq_iff s t = (text_eq→eq s t, λ e. rw e (text_eq_refl t))

pub lookup-insert :
    (k j : Text) (e : RefEntry) (m : Entries)
    → lookup j (insert k e m) ≡ (if text_eq k j then some e else lookup j m)
unfolding lookup insert
lookup-insert k j e [] = refl
lookup-insert k j e ((i, d) ∷ m) =
    ground (arith, text_eq_iff k j, text_eq_iff i k, text_eq_iff i j, lookup-insert k j e m)

-- Each key stands once.
abbrev pub Distinct : Entries → Type 0
Distinct [] = Unit {0}
Distinct ((k, e) ∷ m) = (lookup k m ≡ none) × Distinct m

pub insert-Distinct : (k : Text) (e : RefEntry) (m : Entries) → Distinct m → Distinct (insert k e m)
unfolding insert
insert-Distinct k e [] h = (unfold lookup in refl, tt)
insert-Distinct k e ((j, d) ∷ m) h = elim (Bool-cases (text_eq j k)) [
  | inl same ↦ rw same h
  | inr other ↦
      rw other (rw (lookup-insert k j e m, flipped j k other) h.0, insert-Distinct k e m h.1)
]
  where
    flipped : (a b : Text) → text_eq a b ≡ false → text_eq b a ≡ false
    flipped a b n = ground (arith, text_eq_iff a b, text_eq_iff b a)

lookup-retain-none :
    (p : Text → RefEntry → Bool) (k : Text) (m : Entries)
    → lookup k m ≡ none
    → lookup k (retain p m) ≡ none
unfolding lookup retain
lookup-retain-none p k [] h = refl
lookup-retain-none p k ((j, e) ∷ m) h = ground (arith, lookup-retain-none p k m)

pub retain-Distinct :
    (p : Text → RefEntry → Bool) (m : Entries) → Distinct m → Distinct (retain p m)
unfolding retain
retain-Distinct p [] h = tt
retain-Distinct p ((k, e) ∷ m) h = elim (Bool-cases (p k e)) [
  | inl y ↦ rw y (lookup-retain-none p k m h.0, retain-Distinct p m h.1)
  | inr n ↦ rw n (retain-Distinct p m h.1)
]

-- What is found after a retention is what was found before, if it is retained.
pub lookup-retain :
    (p : Text → RefEntry → Bool) (k : Text) (m : Entries)
    → Distinct m
    → lookup k (retain p m) ≡ keep_if (p k) (lookup k m)
unfolding lookup retain
lookup-retain p k [] h = refl
lookup-retain p k ((j, e) ∷ m) h = elim (Bool-cases (text_eq j k)) [
  | inl same ↦
      let q : j ≡ k = text_eq→eq j k same in
      elim (Bool-cases (p k e)) [
        | inl y ↦ rw (q, y) (rw (text_eq_refl k) (rw y refl))
        | inr n ↦ rw (q, n) (rw (text_eq_refl k) (rw n (lookup-retain-none p k m (rw q at (h.0)))))
      ]
  | inr other ↦ ground (arith, lookup-retain p k m h.1)
]
