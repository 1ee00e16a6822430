-- ===== src/RefMap/Allocation.antt =====
-- What `RefMap::validate` accepts, and what an allocation does to an accepted map.
use agent_desktop.RefMap.Entries.{lookup-insert}
use agent_desktop.Prelude.{
  >>=-eq-ok, All, Option-cases, [], ap, arith, guard, guard-eq-ok, inl, inr, ltb, max, not, ok,
  ok-injective, ok_or, ok_or-eq-ok, refl, some, sym, ℕ, ◌<◌, ◌==◌, ◌||◌, ◌↔◌, ◌∙◌, ◌∷◌, ◌≡◌, ◌≢◌,
  ◌≤◌, Bool-cases, keep_if, none, subst, ◌+◌,
}
use agent_desktop.Text.{Text, codes, strip_prefix, text_eq}
use agent_desktop.Text.Laws.{strip_prefix-append, text_eq_refl, text_eq→eq, text_ne}
use agent_desktop.Text.Decimal.{show_u32, u32_max}
use agent_desktop.Text.DecimalLaws.{parse_u32-le, parse_u32-show_u32, show_u32-injective}
use agent_desktop.Error.{invalid_input}
use mathlib.Core.Option.{some-injective}
use agent_desktop.RefEntry.{RefEntry, validate_ref_entry}
use agent_desktop.RefMap.{
  Entries, RefMap, key_number, ref_key, validate_entries, validate, allocate_validated, get, insert,
  lookup, try_allocate,
}
use agent_desktop.Geometry.{Rect}

pub key_number-ref_key : (n : ℕ) → 0 < n → n ≤ u32_max → key_number (ref_key n) ≡ some n
unfolding key_number ref_key
key_number-ref_key n pos h = ap (keep_if (λ value. ltb 0 value)) (parse_u32-show_u32 n h) ∙ positive
  where
    positive : keep_if (λ value. ltb 0 value) (some n) ≡ some n
    positive = ground arith

key_number_bounds : (k : Text) (n : ℕ) → key_number k ≡ some n → (0 < n) × (n ≤ u32_max)
unfolding key_number
key_number_bounds k n e = elim (Option-cases (strip_prefix (codes "@e") k)) [
  | inl q ↦ ground arith
  | inr (ds, q) ↦ ground (arith, parse_u32-le ds n)
]

pub ref_key-injective : (m n : ℕ) → m ≤ u32_max → n ≤ u32_max → ref_key m ≡ ref_key n → m ≡ n
unfolding ref_key
ref_key-injective m n h k e = show_u32-injective m n h k (
    some-injective _ _ (
      sym (strip_prefix-append (codes "@e") (show_u32 m))
      ∙ ap (strip_prefix (codes "@e")) e
      ∙ strip_prefix-append (codes "@e") (show_u32 n)))

module _ (hash : Rect → ℕ) where
  -- The key of an entry is the canonical key of a number up to the bound, and the entry is valid.
  pub record IsEntry (bound : ℕ) (p : Text × RefEntry) : Type 0 where
    pub number : ℕ
    pub keyed : p.0 ≡ ref_key number
    pub positive : 0 < number
    pub bounded : number ≤ bound
    pub fits : number ≤ u32_max
    pub valid : validate_ref_entry hash p.1 ≡ ok tt

  abbrev pub AllEntries : ℕ → Entries → Type 0
  AllEntries bound = All (IsEntry bound)

  IsEntry-le : (a b : ℕ) (p : Text × RefEntry) → a ≤ b → IsEntry a p → IsEntry b p
  IsEntry-le a b p h e = record {
    number = e.number;
    keyed = e.keyed;
    positive = e.positive;
    bounded = omega arith;
    fits = e.fits;
    valid = e.valid;
  }

  pub AllEntries-le : (a b : ℕ) (m : Entries) → a ≤ b → AllEntries a m → AllEntries b m
  AllEntries-le a b [] h es = tt
  AllEntries-le a b (p ∷ m) h es = (IsEntry-le a b p h es.0, AllEntries-le a b m h es.1)

  validate_entries_sound :
      (start top : ℕ) (m : Entries)
      → validate_entries hash start m ≡ ok top
      → (start ≤ top) × AllEntries top m
  unfolding validate_entries
  validate_entries_sound start top [] e = (omega (arith, ok-injective e), tt)
  validate_entries_sound start top ((k, x) ∷ m) e =
      let (n, read, e₁) =
        >>=-eq-ok (ok_or (key_number k) (invalid_input "RefMap contains an invalid ref key")) _ e in
      let (u, canonical, e₂) =
        >>=-eq-ok
          (guard (text_eq (ref_key n) k) (invalid_input "RefMap contains a non-canonical ref key"))
          _ e₁ in
      let (v, good, e₃) = >>=-eq-ok (validate_ref_entry hash x) _ e₂ in
      let (grows, rest) = validate_entries_sound (max start n) top m e₃ in
      let bounds = key_number_bounds k n (ok_or-eq-ok _ _ read) in
      (
        omega arith,
        (
          record {
            number = n;
            keyed = sym (text_eq→eq (ref_key n) k (guard-eq-ok _ _ canonical));
            positive = bounds.0;
            bounded = omega arith;
            fits = bounds.1;
            valid = good;
          },
          rest,
        ),
      )

  validate_entries_complete :
      (start bound : ℕ) (m : Entries)
      → start ≤ bound
      → AllEntries bound m
      → (top : ℕ) × (validate_entries hash start m ≡ ok top) × (top ≤ bound)
  unfolding validate_entries
  validate_entries_complete start bound [] h es = (start, refl, h)
  validate_entries_complete start bound ((k, x) ∷ m) h (p, es) =
      let (top, e, t) =
        validate_entries_complete (max start p.number) bound m (omega (arith, p.bounded)) es in
      (
        top,
        rw p.keyed (
            rw (key_number-ref_key p.number p.positive p.fits)
              (rw (text_eq_refl (ref_key p.number)) (rw p.valid e))),
        t,
      )

  -- A ref map is accepted exactly when each key is the canonical key of a positive number up to the
  -- counter, each entry is valid, and the counter is not `u32::MAX`.
  pub validate_iff :
      (m : RefMap)
      → (validate hash m ≡ ok tt) ↔ (AllEntries m.counter m.inner × (m.counter ≢ u32_max))
  unfolding validate
  validate_iff m = (sound, complete)
    where
      sound : validate hash m ≡ ok tt → AllEntries m.counter m.inner × (m.counter ≢ u32_max)
      sound e =
          let (top, walked, g) = >>=-eq-ok (validate_entries hash 0 m.inner) _ e in
          let (low, es) = validate_entries_sound 0 top m.inner walked in
          let holds = guard-eq-ok (not (ltb m.counter top || m.counter == u32_max)) _ g in
          (AllEntries-le top m.counter m.inner (ground arith) es, ground arith)

      complete : AllEntries m.counter m.inner × (m.counter ≢ u32_max) → validate hash m ≡ ok tt
      complete (es, ne) =
          let (top, e, t) = validate_entries_complete 0 m.counter m.inner (omega arith) es in
          rw e (ground arith)

  fresh :
      (bound n : ℕ) (m : Entries)
      → bound < n
      → n ≤ u32_max
      → AllEntries bound m
      → lookup (ref_key n) m ≡ none
  unfolding lookup
  fresh bound n [] h k es = refl
  fresh bound n ((j, x) ∷ m) h k (p, es) =
      rw (text_ne j (ref_key n) differs) (fresh bound n m h k es)
    where
      differs : j ≢ ref_key n
      differs e =
          let same : p.number ≡ n = ref_key-injective p.number n p.fits k (sym p.keyed ∙ e) in
          absurd (omega (arith, p.bounded))

  insert-AllEntries :
      (bound : ℕ) (k : Text) (x : RefEntry) (m : Entries)
      → IsEntry bound (k, x)
      → AllEntries bound m
      → AllEntries bound (insert k x m)
  unfolding insert
  insert-AllEntries bound k x [] p es = (p, tt)
  insert-AllEntries bound k x ((j, y) ∷ m) p (q, es) = elim (Bool-cases (text_eq j k)) [
    | inl same ↦ rw same (subst (λ i. IsEntry bound (i, x)) (sym (text_eq→eq j k same)) p, es)
    | inr other ↦ rw other (q, insert-AllEntries bound k x m p es)
  ]

  -- What an allocation of an entry does to a map, told by the calls of its other operations.
  pub record Allocates (m : RefMap) (entry : RefEntry) (ref_id : Text) (m' : RefMap) : Type 0 where
    pub named : ref_id ≡ ref_key (m.counter + 1)
    pub unused : get m ref_id ≡ none
    pub stored : get m' ref_id ≡ some entry
    pub others : (j : Text) → j ≢ ref_id → get m' j ≡ get m j
    pub counted : m'.counter ≡ m.counter + 1
    pub entries : AllEntries m'.counter m'.inner

  pub allocate_validated_lem :
      (m : RefMap) (entry : RefEntry)
      → AllEntries m.counter m.inner
      → m.counter < u32_max
      → validate_ref_entry hash entry ≡ ok tt
      → (r : Text × RefMap) × (allocate_validated m entry ≡ ok r) × Allocates m entry r.0 r.1
  unfolding allocate_validated get
  allocate_validated_lem m entry es room good = (
    (key, record { inner = insert key entry m.inner; counter = m.counter + 1 }),
    ground arith,
    record {
      named = refl;
      unused = fresh m.counter (m.counter + 1) m.inner (omega arith) (omega arith) es;
      stored = rw (lookup-insert key key entry m.inner, text_eq_refl key) refl;
      others = λ j ne. rw (lookup-insert key j entry m.inner, text_ne key j (λ e. ne (sym e))) refl;
      counted = refl;
      entries =
          insert-AllEntries (m.counter + 1) key entry m.inner new_entry
            (AllEntries-le m.counter (m.counter + 1) m.inner (omega arith) es);
    },
  )
    where
      key : Text
      key = ref_key (m.counter + 1)

      new_entry : IsEntry (m.counter + 1) (key, entry)
      new_entry = record {
        number = m.counter + 1;
        keyed = refl;
        positive = omega arith;
        bounded = omega arith;
        fits = omega arith;
        valid = good;
      }

  -- In an accepted map that is not about to use its last number, the allocation of a valid entry
  -- succeeds under an unused key, stores the entry, leaves every other key as it was, and makes an
  -- accepted map.
  pub try_allocate_keeps_valid :
      (m : RefMap) (entry : RefEntry)
      → validate hash m ≡ ok tt
      → m.counter + 1 < u32_max
      → validate_ref_entry hash entry ≡ ok tt
      → (r : Text × RefMap) × (try_allocate hash m entry ≡ ok r)
        × Allocates m entry r.0 r.1
        × (validate hash r.1 ≡ ok tt)
  unfolding try_allocate
  try_allocate_keeps_valid m entry v room good =
      let (r, e, a) = allocate_validated_lem m entry ((validate_iff m).0 v).0 (omega arith) good in
      (r, rw good e, a, (validate_iff r.1).1 (a.entries, omega (arith, a.counted)))

  -- An accepted map whose counter stands at the last number but one still takes a valid entry, and
  -- the map that results is not accepted.
  pub try_allocate_last :
      (m : RefMap) (entry : RefEntry)
      → validate hash m ≡ ok tt
      → m.counter + 1 ≡ u32_max
      → validate_ref_entry hash entry ≡ ok tt
      → (r : Text × RefMap) × (try_allocate hash m entry ≡ ok r) × (validate hash r.1 ≢ ok tt)
  unfolding try_allocate
  try_allocate_last m entry v last good =
      let (r, e, a) = allocate_validated_lem m entry ((validate_iff m).0 v).0 (omega arith) good in
      (r, rw good e, λ w. ((validate_iff r.1).0 w).1 (omega (arith, a.counted)))
