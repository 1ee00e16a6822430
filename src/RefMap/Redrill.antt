-- ===== src/RefMap/Redrill.antt =====
-- Refs that name a root are allocated and removed again: `RefMap::try_allocate` and
-- `RefMap::remove_by_root_ref` together, as a repeated look below a root uses them.
use agent_desktop.Prelude.{
  >>=-eq-ok, Bool, Bool-cases, Option, [], ap, arith, false, guard, guard-eq-ok, inl, inr, ltb,
  none, ok, ok-injective, refl, some, subst, sym, ℕ, ◌+◌, ◌<◌, ◌∙◌, ◌∷◌, ◌≡◌, ◌≢◌,
}
use agent_desktop.Text.{Text, text_eq}
use agent_desktop.Text.Decimal.{u32_max}
use agent_desktop.Text.Laws.{text_ne}
use agent_desktop.Geometry.{Rect}
use agent_desktop.RefEntry.{RefEntry, validate_ref_entry}
use agent_desktop.RefMap.{
  Entries, RefMap, allocate_validated, exhausted, get, insert, keeps, lookup, ref_key,
  remove_by_root_ref, retain, try_allocate, validate,
}
use agent_desktop.RefMap.Below.{is_owned_iff}
use agent_desktop.RefMap.Entries.{Distinct, insert-Distinct}
use agent_desktop.RefMap.Removal.{root_stays}
use agent_desktop.RefMap.Allocation.{AllEntries, Allocates, allocate_validated_lem, validate_iff}

-- An entry that is put in and not retained leaves nothing behind.
retain-insert :
    (p : Text → RefEntry → Bool) (k : Text) (e : RefEntry) (m : Entries)
    → lookup k m ≡ none
    → p k e ≡ false
    → retain p (insert k e m) ≡ retain p m
unfolding retain insert lookup
retain-insert p k e [] h n = rw n refl
retain-insert p k e ((j, d) ∷ m) h n = elim (Bool-cases (text_eq j k)) [
  | inl same ↦ cc (rw same at h)
  | inr other ↦
      let rest = retain-insert p k e m (rw other at h) n in
      elim (Bool-cases (p j d)) [
        | inl y ↦ rw (other, y) (ap (λ xs. (j, d) ∷ xs) rest)
        | inr no_more ↦ rw (other, no_more) rest
      ]
]

module _ (hash : Rect → ℕ) where
  -- What a successful allocation has made.
  try_allocate_ok :
      (m : RefMap) (entry : RefEntry) (r : Text × RefMap)
      → try_allocate hash m entry ≡ ok r
      → (validate_ref_entry hash entry ≡ ok tt)
        × (m.counter < u32_max)
        × (allocate_validated m entry ≡ ok r)
        × (r ≡ (
          ref_key (m.counter + 1),
          record {
            inner = insert (ref_key (m.counter + 1)) entry m.inner;
            counter = m.counter + 1;
          },
        ))
  unfolding try_allocate allocate_validated
  try_allocate_ok m entry r h =
      let (u, good, h1) = >>=-eq-ok (validate_ref_entry hash entry) _ h in
      let (v, room, h2) = >>=-eq-ok (guard (ltb m.counter u32_max) exhausted) _ h1 in
      let below = guard-eq-ok (ltb m.counter u32_max) exhausted room in
      (good, ground arith, h1, sym (ok-injective h2))

  -- Allocations of entries that name a root, one after the other.
  pub data Grows (root : Text) : RefMap → RefMap → Type 0 where
    stop : (m : RefMap) → Grows root m m
    next :
        (m m' : RefMap) (entry : RefEntry) (r : Text × RefMap)
        → entry.scope.root_ref ≡ some root
        → try_allocate hash m entry ≡ ok r
        → Grows root r.1 m'
        → Grows root m m'

  -- What holds of the map between the allocations.
  record Stands (root : Text) (parent : RefEntry) (m : RefMap) : Type 0 where
    here : get m root ≡ some parent
    distinct : Distinct m.inner
    entries : AllEntries hash m.counter m.inner

  owned_not_kept :
      (root k : Text) (o : Option RefEntry) (entry : RefEntry)
      → k ≢ root
      → entry.scope.root_ref ≡ some root
      → keeps root o k entry ≡ false
  unfolding keeps
  owned_not_kept root k o entry ne own =
      let owned = (is_owned_iff root entry).1 own in rw (text_ne k root ne, owned) refl

  -- One allocation: the map still stands, and a removal leaves the same entries as before.
  allocation_removed :
      (root : Text) (parent entry : RefEntry) (m : RefMap) (r : Text × RefMap)
      → Stands root parent m
      → entry.scope.root_ref ≡ some root
      → try_allocate hash m entry ≡ ok r
      → Stands root parent r.1
        × ((remove_by_root_ref r.1 root).inner ≡ (remove_by_root_ref m root).inner)
  unfolding get remove_by_root_ref
  allocation_removed root parent entry m r stands own h =
      let (good, room, made, e) = try_allocate_ok m entry r h in
      let (r', made', told) = allocate_validated_lem hash m entry stands.entries room good in
      let same : r' ≡ r = ok-injective (sym made' ∙ made) in
      let told' : Allocates hash m entry r.0 r.1 =
        subst (λ x. Allocates hash m entry x.0 x.1) same told in
      let apart : root ≢ r.0 = λ q. cc (stands.here, told'.unused, q) in
      let here : lookup root r.1.inner ≡ some parent = told'.others root apart ∙ stands.here in
      let inner : r.1.inner ≡ insert r.0 entry m.inner =
        ap (λ x. x.1.inner) e ∙ ap (λ k. insert k entry m.inner) (sym told'.named) in
      let dropped =
        retain-insert (keeps root (some parent)) r.0 entry m.inner told'.unused
          (owned_not_kept root r.0 (some parent) entry (λ q. apart (sym q)) own) in
      (
        record {
          here = here;
          distinct = subst Distinct (sym inner) (insert-Distinct r.0 entry m.inner stands.distinct);
          entries = told'.entries;
        },
        rw (here, stands.here) (ap (retain (keeps root (some parent))) inner ∙ dropped),
      )

  grown_removed :
      (root : Text) (parent : RefEntry) (m m' : RefMap)
      → Stands root parent m
      → Grows root m m'
      → Stands root parent m'
        × ((remove_by_root_ref m' root).inner ≡ (remove_by_root_ref m root).inner)
  grown_removed root parent m m' stands (stop _) = (stands, refl)
  grown_removed root parent m m' stands (next _ _ entry r own h rest) =
      let (between, once) = allocation_removed root parent entry m r stands own h in
      let (after, later) = grown_removed root parent r.1 m' between rest in (after, later ∙ once)

  -- Let an accepted map with distinct keys have an entry for a root, and let any number of entries
  -- that name the root be allocated in it. Then a removal by the root leaves exactly the entries that
  -- it would have left before the allocations, the root's own entry among them.
  pub remove_by_root_ref-Grows :
      (root : Text) (parent : RefEntry) (m m' : RefMap)
      → validate hash m ≡ ok tt
      → Distinct m.inner
      → get m root ≡ some parent
      → Grows root m m'
      → ((remove_by_root_ref m' root).inner ≡ (remove_by_root_ref m root).inner)
        × (get (remove_by_root_ref m' root) root ≡ some parent)
  remove_by_root_ref-Grows root parent m m' v d here grown =
      let stands : Stands root parent m = record {
        here = here;
        distinct = d;
        entries = ((validate_iff hash m).0 v).0;
      } in
      let (after, same) = grown_removed root parent m m' stands grown in
      (same, root_stays m' root after.distinct ∙ after.here)
