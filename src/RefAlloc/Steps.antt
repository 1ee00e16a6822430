-- ===== src/RefAlloc/Steps.antt =====
-- One node of the walk: what its allocation does to the map and to its ref.

use mathlib.Core.List.{map-append}
use mathlib.Core.Path.{ap₂}
use agent_desktop.Error.{AppError}
use agent_desktop.Role.{is_canonical}
use agent_desktop.Text.Laws.{text_eq_refl, text_eq→eq}
use agent_desktop.Text.Decimal.{u32_max}
use agent_desktop.Prelude.{
  All, List, [], ap, arith, map, ok, ok-injective, refl, some, subst, suc, sym, zero, ℕ, ◌++◌, ◌+◌,
  ◌<◌, ◌∙◌, ◌∷◌, ◌≡◌, >>=-eq-ok, Bool-cases, guard, guard-eq-ok, inl, inr, ltb, ltb→lt, none,
  Option, Result, err, is_ok, not, true, ◌||◌, ◌⊎◌, Bool, false, ◌>>=◌,
}
use agent_desktop.Text.{Text, text_eq, codes}
use agent_desktop.RefEntry.{RefEntry, validate_ref_entry}
use agent_desktop.RefMap.{
  RefMap, allocate_validated, get, ref_key, exhausted, try_allocate_observed, RefAllocation,
  allocated, skipped_invalid_entry, skipped_invalid_role,
}
use agent_desktop.RefMap.Allocation.{AllEntries, Allocates, allocate_validated_lem}
use agent_desktop.Tree.{NodeData, own_ref}
use agent_desktop.RefAlloc.{
  meaningful_string, allocate_observed_ref, RefAllocConfig, allocate_with, anchor_entry,
  primary_entry, ref_entry_from_node, strip_bounds,
}
use agent_desktop.Geometry.{Rect}

-- The keys of the `count` numbers that follow `start`.
abbrev pub key_range : ℕ → ℕ → List Text
key_range start zero = []
key_range start (suc count) = ref_key (start + 1) ∷ key_range (start + 1) count

key_range-append :
    (start a b : ℕ) → key_range start a ++ key_range (start + a) b ≡ key_range start (a + b)
key_range-append start zero b =
    let here : start + 0 ≡ start = omega arith in
    let none_more : b ≡ 0 + b = omega arith in
    ap (λ (s : ℕ). key_range s b) here ∙ ap (key_range start) none_more
key_range-append start (suc a) b =
    let next : start + suc a ≡ start + 1 + a = omega arith in
    let total : suc (a + b) ≡ suc a + b = omega arith in
    ap (λ (s : ℕ). key_range start (suc a) ++ key_range s b) next
    ∙ ap (λ t. ref_key (start + 1) ∷ t) (key_range-append (start + 1) a b)
    ∙ ap (key_range start) total

-- The map knows the ref, and its entry is that of the node.
abbrev pub Describes : RefMap → Text × NodeData → Type 0
Describes m (ref_id, d) =
    (e : RefEntry) × (get m ref_id ≡ some e)
    × (e.identity.role ≡ d.role)
    × (e.identity.name ≡ meaningful_string d.identity.name)
    × (e.capabilities.states ≡ d.presentation.states)

abbrev pub Keeps : RefMap → RefMap → Type 0
Keeps m m' = (k : Text) (e : RefEntry) → get m k ≡ some e → get m' k ≡ some e

Keeps-Describes :
    (m m' : RefMap) (tagged : List (Text × NodeData))
    → Keeps m m'
    → All (Describes m) tagged
    → All (Describes m') tagged
Keeps-Describes m m' [] k h = tt
Keeps-Describes m m' (p ∷ tagged) k (h, hs) =
    ((h.0, k p.0 h.0 h.1, h.2, h.3, h.4), Keeps-Describes m m' tagged k hs)

All-append :
    (P : Text × NodeData → Type 0) (xs ys : List (Text × NodeData))
    → All P xs
    → All P ys
    → All P (xs ++ ys)
All-append P [] ys h k = k
All-append P (x ∷ xs) ys h k = (h.0, All-append P xs ys h.1 k)

module _ (hash : Rect → ℕ) where
  -- A part of the walk leads from one map to another and gives refs to these nodes.
  pub record Walked (m m' : RefMap) (tagged : List (Text × NodeData)) : Type 0 where
    pub count : ℕ
    pub counter : m'.counter ≡ m.counter + count
    pub consecutive : map (λ p. p.0) tagged ≡ key_range m.counter count
    pub entries : AllEntries hash m'.counter m'.inner
    pub kept : Keeps m m'
    pub described : All (Describes m') tagged

  pub stays : (m : RefMap) → AllEntries hash m.counter m.inner → Walked m m []
  stays m es = record {
    count = 0;
    counter = omega arith;
    consecutive = refl;
    entries = es;
    kept = λ k e h. h;
    described = tt;
  }

  pub follows :
      (m m₁ m₂ : RefMap) (xs ys : List (Text × NodeData))
      → Walked m m₁ xs
      → Walked m₁ m₂ ys
      → Walked m m₂ (xs ++ ys)
  follows m m₁ m₂ xs ys a b = record {
    count = a.count + b.count;
    counter = omega (arith, a.counter, b.counter);
    consecutive =
        map-append (λ p. p.0) xs ys
        ∙ ap₂ (λ s t. s ++ t) a.consecutive
            (b.consecutive ∙ ap (λ (c : ℕ). key_range c b.count) a.counter)
        ∙ key_range-append m.counter a.count b.count;
    entries = b.entries;
    kept = λ k e h. b.kept k e (a.kept k e h);
    described =
        All-append (Describes m₂) xs ys (Keeps-Describes m₁ m₂ xs b.kept a.described) b.described;
  }

  had_room :
      (m : RefMap) (entry : RefEntry) (r : Text × RefMap)
      → allocate_validated m entry ≡ ok r
      → m.counter < u32_max
  unfolding allocate_validated
  had_room m entry r e =
      let (u, g, f) = >>=-eq-ok (guard (ltb m.counter u32_max) exhausted) _ e in
      ltb→lt _ _ (guard-eq-ok _ _ g)

  allocate_validated_inv :
      (m : RefMap) (entry : RefEntry) (r : Text × RefMap)
      → AllEntries hash m.counter m.inner
      → validate_ref_entry hash entry ≡ ok tt
      → allocate_validated m entry ≡ ok r
      → Allocates hash m entry r.0 r.1
  allocate_validated_inv m entry r es good e =
      let (r', e', a) = allocate_validated_lem hash m entry es (had_room m entry r e) good in
      subst (λ x. Allocates hash m entry x.0 x.1) (ok-injective (sym e' ∙ e)) a

  -- A node that gets the ref of an allocation for its own entry.
  allocated_step :
      (m m' : RefMap) (entry : RefEntry) (ref_id : Text) (d : NodeData)
      → Allocates hash m entry ref_id m'
      → entry.identity.role ≡ d.role
      → entry.identity.name ≡ meaningful_string d.identity.name
      → entry.capabilities.states ≡ d.presentation.states
      → Walked m m' ((ref_id, d) ∷ [])
  allocated_step m m' entry ref_id d a r n s = record {
    count = 1;
    counter = a.counted;
    consecutive = ap (λ t. t ∷ []) a.named;
    entries = a.entries;
    kept = λ k e h. elim (Bool-cases (text_eq k ref_id)) [
      | inl same ↦
          let missing : get m k ≡ none =
            subst (λ t. get m t ≡ none) (sym (text_eq→eq k ref_id same)) a.unused in
          ground arith
      | inr other ↦
          a.others k (λ q. cc (other, text_eq_refl ref_id, ap (λ t. text_eq t ref_id) q)) ∙ h
    ];
    described = ((entry, a.stored, r, n, s), tt);
  }

  -- The outcome of an observed allocation: nothing happens, or the entry is allocated.
  abbrev Observed : RefMap → RefEntry → Option Text × RefMap → Type 0
  Observed m entry (o, m') =
      ((o ≡ none) × (m' ≡ m))
      ⊎ ((ref_id : Text) × (o ≡ some ref_id) × Allocates hash m entry ref_id m')

  is_ok_valid :
      (entry : RefEntry)
      → is_ok (validate_ref_entry hash entry) ≡ true
      → validate_ref_entry hash entry ≡ ok tt
  is_ok_valid entry h = go (validate_ref_entry hash entry) h
    where
      go : (v : Result AppError (Unit {0})) → is_ok v ≡ true → v ≡ ok tt
      go (ok tt) h = refl
      go (err e) h = cc

  abbrev with_ref : Result AppError (Text × RefMap) → Result AppError (RefAllocation × RefMap)
  with_ref r = r >>= λ (ref_id, m'). ok (allocated ref_id, m')

  -- The three ways of an observed allocation.
  Observed-cases :
      (m : RefMap) (entry : RefEntry)
      → (try_allocate_observed hash m entry ≡ ok (skipped_invalid_role, m))
        ⊎ ((try_allocate_observed hash m entry ≡ ok (skipped_invalid_entry, m))
            ⊎ ((validate_ref_entry hash entry ≡ ok tt)
                × (try_allocate_observed hash m entry ≡ with_ref (allocate_validated m entry))))
  unfolding try_allocate_observed
  Observed-cases m entry =
      elim (Bool-cases
        (not (is_canonical entry.identity.role) || text_eq entry.identity.role (codes "unknown"))) [
          | inl bad_role ↦ inl (rw bad_role refl)
          | inr good_role ↦ elim (Bool-cases (is_ok (validate_ref_entry hash entry))) [
            | inl valid ↦ inr (inr (is_ok_valid entry valid, rw (good_role, valid) refl))
            | inr invalid ↦ inr (inl (rw (good_role, invalid) refl))
          ]
        ]

  Observed-allocate :
      (m : RefMap) (entry : RefEntry) (r : Option Text × RefMap)
      → AllEntries hash m.counter m.inner
      → allocate_observed_ref hash m entry ≡ ok r
      → Observed m entry r
  unfolding allocate_observed_ref
  Observed-allocate m entry r es e = elim (Observed-cases m entry) [
    | inl c ↦ skipped (ok-injective (rw c at e))
    | inr (inl c) ↦ skipped (ok-injective (rw c at e))
    | inr (inr (valid, c)) ↦
        let (p, done, f) =
          >>=-eq-ok (allocate_validated m entry) _
            (regroup (allocate_validated m entry) (rw c at e)) in
        subst (Observed m entry) (ok-injective f)
          (inr (p.0, refl, allocate_validated_inv m entry p es valid done))
  ]
    where
      skipped : ◌≡◌ {A = Option Text × RefMap} (none, m) r → Observed m entry r
      skipped q = subst (Observed m entry) q (inl (refl, refl))

      regroup :
          (a : Result AppError (Text × RefMap))
          → (with_ref a >>= λ (allocation, m'). elim allocation [
            | allocated ref_id ↦ ok (some ref_id, m')
            | skipped_invalid_role ↦ ok (none, m')
            | skipped_invalid_entry ↦ ok (none, m')
          ])
            ≡ ok r
          → (a >>= λ (ref_id, m'). ok (some ref_id, m')) ≡ ok r
      regroup (ok (t, m')) h = h
      regroup (err x) h = h

  -- An entry that was made from a node.
  abbrev pub MadeFrom : RefEntry → NodeData → Type 0
  MadeFrom e d =
      (e.identity.role ≡ d.role)
      × (e.identity.name ≡ meaningful_string d.identity.name)
      × (e.capabilities.states ≡ d.presentation.states)

  abbrev pub own_tag : Bool → NodeData → List (Text × NodeData)
  own_tag b d = own_ref (strip_bounds b d).ref_id (strip_bounds b d)

  pub allocate_with-Walked :
      (b : Bool) (d : NodeData) (entry : RefEntry) (m : RefMap) (r : NodeData × RefMap)
      → AllEntries hash m.counter m.inner
      → MadeFrom entry d
      → allocate_with hash d entry m ≡ ok r
      → Walked m r.1 (own_tag b r.0)
  unfolding allocate_with
  allocate_with-Walked b d entry m r es made e =
      let (p, done, f) = >>=-eq-ok (allocate_observed_ref hash m entry) _ e in
      subst (λ x. Walked m x.1 (own_tag b x.0)) (ok-injective f)
        (tagged b p (Observed-allocate m entry p es done))
    where
      tagged :
          (b : Bool) (p : Option Text × RefMap)
          → Observed m entry p
          → Walked m p.1 (own_tag b (record d { ref_id = p.0 }))
      tagged true (o, m') (inl (n, same)) = rw (n, same) (stays m es)
      tagged false (o, m') (inl (n, same)) = rw (n, same) (stays m es)
      tagged true (o, m') (inr (ref_id, q, a)) =
          rw q (allocated_step m m' entry ref_id _ a made.0 made.1 made.2)
      tagged false (o, m') (inr (ref_id, q, a)) =
          rw q (allocated_step m m' entry ref_id _ a made.0 made.1 made.2)

  pub primary_made :
      (config : RefAllocConfig) (d : NodeData) (path : List ℕ)
      → MadeFrom (primary_entry hash config d path) d
  unfolding primary_entry ref_entry_from_node
  primary_made config d path = elim (Bool-cases config.options.include_bounds) [
    | inl y ↦ rw y (refl, refl, refl)
    | inr n ↦ rw n (refl, refl, refl)
  ]

  pub anchor_made :
      (config : RefAllocConfig) (d : NodeData) (path : List ℕ)
      → MadeFrom (anchor_entry hash config d path) d
  unfolding anchor_entry ref_entry_from_node
  anchor_made config d path = elim (Bool-cases config.options.include_bounds) [
    | inl y ↦ rw y (refl, refl, refl)
    | inr n ↦ rw n (refl, refl, refl)
  ]
