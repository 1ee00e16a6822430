-- ===== src/SnapshotStore/Eviction.antt =====
-- The latest snapshot is kept, and the oldest of the others go first.
use agent_desktop.Prelude.{
  Bool, Bool-cases, List, [], ap, arith, false, inl, inr, leb, length, not, refl, suc, true, zero,
  ℕ, ◌+◌, ◌-◌, ◌<◌, ◌∙◌, ◌∷◌, ◌≡◌, ◌≤◌,
}
use agent_desktop.Text.{Text, text_eq}
use agent_desktop.SnapshotStore.{
  DirEntry, evict, filter, insert, is_retained, max_saved_snapshots, no_later, prune_low_water,
  prune_old_snapshots, sort, text_le,
}

abbrev pub drop_first : ℕ → List DirEntry → List DirEntry
drop_first zero es = es
drop_first (suc n) [] = []
drop_first (suc n) (e ∷ es) = drop_first n es

abbrev pub is_latest : Text → DirEntry → Bool
is_latest latest_id e = text_eq e.id latest_id

abbrev pub is_other : Text → DirEntry → Bool
is_other latest_id e = not (text_eq e.id latest_id)

evict_latest :
    (latest_id : Text) (n : ℕ) (es : List DirEntry)
    → filter (is_latest latest_id) (evict latest_id n es) ≡ filter (is_latest latest_id) es
unfolding evict
evict_latest latest_id zero [] = refl
evict_latest latest_id (suc n) [] = refl
evict_latest latest_id zero (e ∷ es) = refl
evict_latest latest_id (suc n) (e ∷ es) =
    let kept = evict_latest latest_id (suc n) es in
    let gone = evict_latest latest_id n es in
    elim (Bool-cases (text_eq e.id latest_id)) [
      | inl latest ↦ rw (latest, evict, latest) (ap (λ rest. e ∷ rest) kept)
      | inr other ↦ rw (other, evict) gone
    ]

evict_others :
    (latest_id : Text) (n : ℕ) (es : List DirEntry)
    → filter (is_other latest_id) (evict latest_id n es)
      ≡ drop_first n (filter (is_other latest_id) es)
unfolding evict
evict_others latest_id zero [] = refl
evict_others latest_id (suc n) [] = refl
evict_others latest_id zero (e ∷ es) = refl
evict_others latest_id (suc n) (e ∷ es) =
    let kept = evict_others latest_id (suc n) es in
    let gone = evict_others latest_id n es in
    elim (Bool-cases (text_eq e.id latest_id)) [
      | inl latest ↦ rw (latest, evict, latest) kept
      | inr other ↦ rw (other, evict) gone
    ]

-- Each is no later than the next.
unfoldable pub Ordered : List DirEntry → Type 0
Ordered [] = Unit {0}
Ordered (a ∷ []) = Unit {0}
Ordered (a ∷ b ∷ rest) = (no_later a b ≡ true) × Ordered (b ∷ rest)

text_le_total : (s t : Text) → text_le s t ≡ false → text_le t s ≡ true
unfolding text_le
text_le_total [] t h = cc h
text_le_total (c ∷ cs) [] h = refl
text_le_total (c ∷ cs) (d ∷ ds) h = let later = text_le_total cs ds in ground (arith, later)

no_later_total : (a b : DirEntry) → no_later a b ≡ false → no_later b a ≡ true
unfolding no_later
no_later_total a b h = let ids = text_le_total a.id b.id in ground (arith, ids)

insert-Ordered : (a : DirEntry) (es : List DirEntry) → Ordered es → Ordered (insert a es)
unfolding Ordered
insert-Ordered a [] h = tt
insert-Ordered a (b ∷ []) h = elim (Bool-cases (no_later a b)) [
  | inl first ↦ rw first (first, tt)
  | inr second ↦ rw second (no_later_total a b second, tt)
]
insert-Ordered a (b ∷ c ∷ rest) h =
    let later = insert-Ordered a (c ∷ rest) h.1 in
    elim (Bool-cases (no_later a b)) [
      | inl first ↦ rw first (first, h)
      | inr second ↦ elim (Bool-cases (no_later a c)) [
        | inl here ↦ rw (second, here) (no_later_total a b second, (here, h.1))
        | inr there ↦
            let tail : Ordered (c ∷ insert a rest) = rw there at later in
            rw (second, there) (h.0, tail)
      ]
    ]

sort-Ordered : (es : List DirEntry) → Ordered (sort es)
unfolding sort Ordered
sort-Ordered [] = tt
sort-Ordered (a ∷ es) = insert-Ordered a (sort es) (sort-Ordered es)

length-filter-insert :
    (p : DirEntry → Bool) (a : DirEntry) (es : List DirEntry)
    → length (filter p (insert a es)) ≡ length (filter p (a ∷ es))
length-filter-insert p a [] = refl
length-filter-insert p a (b ∷ es) =
    let later = length-filter-insert p a es in
    elim (Bool-cases (no_later a b)) [
      | inl first ↦ rw first refl
      | inr second ↦ rw second (ground (arith, later))
    ]

length-filter-sort :
    (p : DirEntry → Bool) (es : List DirEntry) → length (filter p (sort es)) ≡ length (filter p es)
unfolding sort
length-filter-sort p [] = refl
length-filter-sort p (a ∷ es) =
    let later = length-filter-sort p es in
    length-filter-insert p a (sort es) ∙ ground (arith, later)

length_split :
    (latest_id : Text) (es : List DirEntry)
    → length es ≡ length (filter (is_latest latest_id) es) + length (filter (is_other latest_id) es)
length_split latest_id [] = refl
length_split latest_id (e ∷ es) = let later = length_split latest_id es in ground (arith, later)

length-drop_first : (n : ℕ) (es : List DirEntry) → length (drop_first n es) ≡ length es - n
length-drop_first zero es = omega arith
length-drop_first (suc n) [] = omega arith
length-drop_first (suc n) (e ∷ es) = omega (arith, length-drop_first n es)

prune_old_snapshots_full :
    (latest_id : Text) (entries : List DirEntry)
    → max_saved_snapshots < length (filter is_retained entries)
    → prune_old_snapshots latest_id entries
      ≡ evict latest_id
          (length (filter is_retained entries) - prune_low_water)
          (sort (filter is_retained entries))
unfolding prune_old_snapshots
prune_old_snapshots_full latest_id entries full =
    let more : leb (length (filter is_retained entries)) max_saved_snapshots ≡ false =
      ground arith in
    rw more refl

length-evict :
    (latest_id : Text) (retained : List DirEntry)
    → prune_low_water < length retained
    → length (filter (is_latest latest_id) retained) ≤ prune_low_water
    → length (evict latest_id (length retained - prune_low_water) (sort retained)) ≡ prune_low_water
length-evict latest_id retained full few =
    let n = length retained - prune_low_water in
    let left = evict latest_id n (sort retained) in
    let total = length_split latest_id retained in
    let parts = length_split latest_id left in
    let latests =
      ap length (evict_latest latest_id n (sort retained))
      ∙ length-filter-sort (is_latest latest_id) retained in
    let others =
      ap length (evict_others latest_id n (sort retained))
      ∙ length-drop_first n (filter (is_other latest_id) (sort retained)) in
    let sorted = length-filter-sort (is_other latest_id) retained in omega arith

-- Where more than 128 snapshots are in the store, the ones that are left after pruning are the latest
-- one, and of the others, from the oldest to the newest, all but the first ones that go beyond 96; they
-- are 96, where no more than 96 bear the id of the latest.
pub prune_old_snapshots_lem :
    (latest_id : Text) (entries : List DirEntry)
    → max_saved_snapshots < length (filter is_retained entries)
    → length (filter (is_latest latest_id) (filter is_retained entries)) ≤ prune_low_water
    → Ordered (sort (filter is_retained entries))
      × (filter (is_latest latest_id) (prune_old_snapshots latest_id entries)
          ≡ filter (is_latest latest_id) (sort (filter is_retained entries)))
      × (filter (is_other latest_id) (prune_old_snapshots latest_id entries)
          ≡ drop_first
              (length (filter is_retained entries) - prune_low_water)
              (filter (is_other latest_id) (sort (filter is_retained entries))))
      × (length (prune_old_snapshots latest_id entries) ≡ prune_low_water)
prune_old_snapshots_lem latest_id entries full few =
    let retained = filter is_retained entries in
    let n = length retained - prune_low_water in
    let pruned = prune_old_snapshots_full latest_id entries full in
    (
      sort-Ordered retained,
      ap (filter (is_latest latest_id)) pruned ∙ evict_latest latest_id n (sort retained),
      ap (filter (is_other latest_id)) pruned ∙ evict_others latest_id n (sort retained),
      ap length pruned ∙ length-evict latest_id retained (omega arith) few,
    )
