-- ===== src/RefMap/Removal.antt =====
-- What `RefMap::remove_by_root_ref` keeps.
use agent_desktop.Prelude.{
  Bool, Option, arith, false, keep_if, none, refl, some, true, ◌↔◌, ◌≡◌, ◌≢◌, sym, ◌∙◌,
}
use agent_desktop.Text.{Text}
use agent_desktop.Text.Laws.{text_eq_refl, text_ne}
use agent_desktop.RefEntry.{RefEntry}
use agent_desktop.RefMap.{
  RefMap, get, is_descendant, is_owned, keeps, lookup, remove_by_root_ref, retain,
}
use agent_desktop.RefMap.Below.{IsBelow, is_descendant_iff, is_owned_iff}
use agent_desktop.RefMap.Entries.{Distinct, lookup-retain}
use agent_desktop.RefMap.Allocation.{}
use agent_desktop.Geometry.{}

keeps_root :
    (root : Text) (parent : Option RefEntry) (e : RefEntry) → keeps root parent root e ≡ true
unfolding keeps
keeps_root root parent e = rw (text_eq_refl root) refl

abbrev pub NotBelow : Option RefEntry → RefEntry → Type 0
NotBelow none e = Unit {0}
NotBelow (some parent) e = ¬ IsBelow parent e

-- An entry survives unless it names the root as its own or lies below the root's own entry.
abbrev pub Survives : Text → Option RefEntry → RefEntry → Type 0
Survives root parent e = (e.scope.root_ref ≢ some root) × NotBelow parent e

not_owned : (root : Text) (e : RefEntry) → e.scope.root_ref ≢ some root → is_owned root e ≡ false
not_owned root e h = ground (arith, is_owned_iff root e)

keeps-Survives :
    (root k : Text) (parent : Option RefEntry) (e : RefEntry)
    → k ≢ root
    → keeps root parent k e ≡ true
    → Survives root parent e
unfolding keeps
keeps-Survives root k none e ne h = (
  λ own. let o = (is_owned_iff root e).1 own in absurd (ground (arith, text_ne k root ne, o)),
  tt,
)
keeps-Survives root k (some p) e ne h = (
  λ own. let o = (is_owned_iff root e).1 own in absurd (ground (arith, text_ne k root ne, o)),
  λ below. let b = (is_descendant_iff p e).1 below in absurd (ground (arith, text_ne k root ne, b)),
)

Survives-keeps :
    (root k : Text) (parent : Option RefEntry) (e : RefEntry)
    → k ≢ root
    → Survives root parent e
    → keeps root parent k e ≡ true
unfolding keeps
Survives-keeps root k none e ne (free, _) = ground (arith, text_ne k root ne, not_owned root e free)
Survives-keeps root k (some p) e ne (free, apart) =
    let there : is_descendant p e ≡ false =
      not_true (is_descendant p e) (λ d. apart ((is_descendant_iff p e).0 d)) in
    ground (arith, text_ne k root ne, not_owned root e free, there)
  where
    not_true : (b : Bool) → (b ≡ true → ⊥) → b ≡ false
    not_true true n = absurd (n refl)
    not_true false n = refl

keep_if_iff :
    (p : RefEntry → Bool) (o : Option RefEntry) (e : RefEntry)
    → (keep_if p o ≡ some e) ↔ ((o ≡ some e) × (p e ≡ true))
keep_if_iff p none e = (λ h. cc, λ h. cc (h.0))
keep_if_iff p (some d) e = (λ h. ground arith, λ h. ground arith)

-- The root's own entry stays.
pub root_stays :
    (m : RefMap) (root : Text)
    → Distinct m.inner
    → get (remove_by_root_ref m root) root ≡ get m root
unfolding get remove_by_root_ref
root_stays m root d = own (lookup root m.inner) refl
  where
    own :
        (o : Option RefEntry)
        → lookup root m.inner ≡ o
        → lookup root (retain (keeps root (lookup root m.inner)) m.inner) ≡ lookup root m.inner
    own none q = lookup-retain (keeps root (lookup root m.inner)) root m.inner d ∙ rw q refl
    own (some x) q =
        lookup-retain (keeps root (lookup root m.inner)) root m.inner d
        ∙ rw q (rw (keeps_root root (some x) x) refl)

-- In a map with distinct keys the root's own entry stays; an entry under another key stays exactly if
-- it does not name the root as its root ref and, where the root has an entry, does not lie below it:
-- it differs from it in its process or source, one of their paths does not start at the window, or
-- its path does not continue the path of the root's entry, by a step at least where it names no root
-- ref; and the counter stays.
pub remove_by_root_ref_lem :
    (m : RefMap) (root k : Text) (e : RefEntry)
    → Distinct m.inner
    → k ≢ root
    → (get (remove_by_root_ref m root) root ≡ get m root)
      × ((get (remove_by_root_ref m root) k ≡ some e)
          ↔ ((get m k ≡ some e) × Survives root (get m root) e))
      × ((remove_by_root_ref m root).counter ≡ m.counter)
unfolding get remove_by_root_ref
remove_by_root_ref_lem m root k e d ne = (root_stays m root d, other, refl)
  where
    other :
        (lookup k (retain (keeps root (lookup root m.inner)) m.inner) ≡ some e)
        ↔ ((lookup k m.inner ≡ some e) × Survives root (lookup root m.inner) e)
    other =
        let found = lookup-retain (keeps root (lookup root m.inner)) k m.inner d in
        let split = keep_if_iff (keeps root (lookup root m.inner) k) (lookup k m.inner) e in
        (
          λ h.
              let (a, b) = split.0 (sym found ∙ h) in
              (a, keeps-Survives root k (lookup root m.inner) e ne b),
          λ h. found ∙ split.1 (h.0, Survives-keeps root k (lookup root m.inner) e ne h.1),
        )
