-- ===== src/SnapshotStore.antt =====
-- crates/core/src/refs_store_prune.rs: which snapshots are evicted when the store is full. A directory
-- of the store is its entries; the file system and the sweep of orphaned `*.tmp` files, which touches no
-- snapshot, are left out. A snapshot whose modification time cannot be read counts as made at 0.
pub mod Eviction
use agent_desktop.Prelude.{
  Bool, List, [], false, if◌then◌else◌, leb, length, ltb, suc, true, zero, ℕ, ◌&&◌, ◌-◌, ◌==◌, ◌||◌,
  ◌∷◌,
}
use agent_desktop.Text.{Text, text_eq}
use agent_desktop.SnapshotId.{is_snapshot_id}

abbrev pub max_saved_snapshots : ℕ
max_saved_snapshots = 128

abbrev pub prune_low_water : ℕ
prune_low_water = 96

pub record DirEntry : Type 0 where
  pub id : Text
  pub is_dir : Bool
  pub modified : ℕ

-- `Ord for str`.
unfoldable pub text_le : Text → Text → Bool
text_le [] t = true
text_le (c ∷ cs) [] = false
text_le (c ∷ cs) (d ∷ ds) = ltb c d || c == d && text_le cs ds

-- `(left.0, &left.1).cmp(&(right.0, &right.1))`, as a test for no later.
unfoldable pub no_later : DirEntry → DirEntry → Bool
unfolding text_le
no_later a b = ltb a.modified b.modified || a.modified == b.modified && text_le a.id b.id

abbrev pub insert : DirEntry → List DirEntry → List DirEntry
insert a [] = a ∷ []
insert a (b ∷ bs) = let later = insert a bs in if no_later a b then a ∷ b ∷ bs else b ∷ later

-- `sort_by`, which is stable.
unfoldable pub sort : List DirEntry → List DirEntry
sort [] = []
sort (a ∷ rest) = insert a (sort rest)

unfoldable pub is_retained : DirEntry → Bool
unfolding is_snapshot_id
is_retained e = e.is_dir && is_snapshot_id e.id

abbrev pub filter : (DirEntry → Bool) → List DirEntry → List DirEntry
filter p [] = []
filter p (e ∷ es) = let rest = filter p es in if p e then e ∷ rest else rest

-- The loop that removes: the snapshots that are left.
unfoldable pub evict : Text → ℕ → List DirEntry → List DirEntry
unfolding text_eq
evict latest_id remove_count [] = []
evict latest_id zero (e ∷ es) = e ∷ es
evict latest_id (suc n) (e ∷ es) = elim (text_eq e.id latest_id) [
  | true ↦ e ∷ evict latest_id (suc n) es
  | false ↦ evict latest_id n es
]

-- `prune_old_snapshots_unlocked`: the snapshots that are left in the store, of the entries that the
-- directory lists.
unfoldable pub prune_old_snapshots : Text → List DirEntry → List DirEntry
unfolding is_retained sort evict
prune_old_snapshots latest_id entries =
    let retained = filter is_retained entries in
    if leb (length retained) max_saved_snapshots
    then retained
    else evict latest_id (length retained - prune_low_water) (sort retained)
