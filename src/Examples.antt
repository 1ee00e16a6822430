-- ===== src/Examples.antt =====
-- Concrete inputs of the theorems, and the theorems at them: the refs. The ones of the actions and
-- of the queries, of waiting and of elements are in the modules below.
mod Actions
mod Queries
mod Trees
mod Waiting
mod Elements
mod Dispatching
use agent_desktop.Role.{Role, as_str, combo_box, from_token, window}
use agent_desktop.Roles.{is_valid_role_query, normalize_role_query}
use agent_desktop.Prelude.{
  false, ap, List, Option, [], arith, err, is_some, none, ok, refl, some, true, ℕ, ◌+◌, ◌↔◌, ◌∷◌,
  ◌≡◌, ◌≢◌,
}
use agent_desktop.Text.Decimal.{u32_max}
use agent_desktop.Text.Laws.{text_eq_refl}
use agent_desktop.Text.{text_eq, Text, codes, rsplit_once, to_ascii_lowercase, trim}
use agent_desktop.Error.{
  DeliveryDisposition, DeliverySemantics, deserialize_semantics, delivery, retry, safe,
  not_delivered,
}
use agent_desktop.Error.Wire.{deserialize_semantics_iff}
use agent_desktop.Role.Tokens.{from_token-as_str, from_token_sound}
use agent_desktop.Roles.Queries.{is_valid_role_query_iff}
use agent_desktop.SnapshotId.{new_snapshot_id, validate_snapshot_id}
use agent_desktop.SnapshotId.Fresh.{new_snapshot_id-injective, new_snapshot_id_valid}
use agent_desktop.RefToken.{
  is_local_ref, qualify_ref_id, resolve_qualified, resolve_ref_target, snapshot_mismatch,
}
use agent_desktop.RefToken.RoundTrip.{Resolves, resolve-qualify, resolve_ref_target_sound}
use agent_desktop.RefEntry.{RefEntry, SnapshotSurface, validate_ref_entry}
use agent_desktop.RefMap.{
  validate, RefMap, get, lookup, remove_by_root_ref, try_allocate, validate_entries,
  allocate_validated, ref_key, insert,
}
use agent_desktop.RefMap.Entries.{Distinct}
use agent_desktop.RefMap.Allocation.{
  AllEntries, Allocates, try_allocate_keeps_valid, try_allocate_last, validate_iff,
}
use agent_desktop.RefMap.Removal.{Survives, remove_by_root_ref_lem}
use agent_desktop.RefMap.Redrill.{next, remove_by_root_ref-Grows, stop}
use agent_desktop.Geometry.{Rect, bounds_hash}

abbrev rect_hash : Rect → ℕ
rect_hash r = r.x + r.y + r.width + r.height

abbrev snapshot : Text
snapshot = codes "s8f3k2p9"

differ : (s t : Text) → text_eq s t ≡ false → s ≢ t
differ s t h q = cc (h, text_eq_refl s, ap (text_eq s) q)

resolve-qualify_example :
    (resolve_ref_target (qualify_ref_id snapshot (codes "@e5")) none ≡ ok (snapshot, codes "@e5"))
    × (resolve_ref_target (qualify_ref_id snapshot (codes "@e5")) (some snapshot)
        ≡ ok (snapshot, codes "@e5"))
    × (resolve_ref_target (qualify_ref_id snapshot (codes "@e5")) (some (codes "s000"))
        ≡ err snapshot_mismatch)
unfolding validate_snapshot_id is_local_ref text_eq
resolve-qualify_example =
    resolve-qualify snapshot (codes "@e5") (codes "s000") refl refl
      (differ (codes "s000") snapshot refl)

resolve_ref_target_sound_example :
    (validate_snapshot_id snapshot ≡ ok tt)
    × (is_local_ref (codes "@e5") ≡ true)
    × Resolves (codes "@s8f3k2p9:e5") none snapshot (codes "@e5")
unfolding resolve_ref_target is_local_ref resolve_qualified rsplit_once validate_snapshot_id
resolve_ref_target_sound_example =
    resolve_ref_target_sound (codes "@s8f3k2p9:e5") snapshot (codes "@e5") none refl

new_snapshot_id_valid_example : validate_snapshot_id (new_snapshot_id 123456789) ≡ ok tt
new_snapshot_id_valid_example = new_snapshot_id_valid 123456789

new_snapshot_id-injective_example : ◌≡◌ {A = ℕ} 40 40
new_snapshot_id-injective_example = new_snapshot_id-injective 40 40 (omega arith) (omega arith) refl

from_token-as_str_example : from_token (as_str Role.combo_box) ≡ Role.combo_box
from_token-as_str_example = from_token-as_str Role.combo_box

from_token_sound_example :
    as_str (from_token (codes " Button ")) ≡ to_ascii_lowercase (trim (codes " Button "))
unfolding from_token
from_token_sound_example = from_token_sound (codes " Button ") (λ e. cc e)

deserialize_semantics_iff_example :
    (deserialize_semantics DeliveryDisposition.not_delivered safe
      ≡ ok DeliverySemantics.not_delivered)
    ↔ ((delivery DeliverySemantics.not_delivered ≡ DeliveryDisposition.not_delivered)
        × (retry DeliverySemantics.not_delivered ≡ safe))
deserialize_semantics_iff_example =
    deserialize_semantics_iff DeliveryDisposition.not_delivered safe DeliverySemantics.not_delivered

abbrev entry_at : Option Text → List ℕ → RefEntry
entry_at root path = record {
  process = record { pid = 7; process_instance = some (codes "boot-1") };
  identity = record {
    retained_object = none;
    role = codes "button";
    name = some (codes "Save");
    value = none;
    description = none;
    native_id = none;
  };
  geometry = record { bounds = none; bounds_hash = none };
  capabilities = record { states = []; available_actions = codes "Click" ∷ [] };
  source = record {
    source_app = some (codes "Editor");
    source_window_id = none;
    source_window_title = none;
    source_window_bounds_hash = none;
    source_surface = SnapshotSurface.window;
  };
  scope = record { root_ref = root; path_is_absolute = is_some root; path = path };
}

-- Two refs: a root, and an element that was found below it.
abbrev two_refs : RefMap
two_refs = record {
  inner =
      (codes "@e1", entry_at none (0 ∷ []))
      ∷ (codes "@e2", entry_at (some (codes "@e1")) (0 ∷ 1 ∷ []))
      ∷ [];
  counter = 2;
}

abbrev saved : RefEntry
saved = entry_at none (2 ∷ [])

two_refs_valid : validate rect_hash two_refs ≡ ok tt
unfolding validate validate_entries validate_ref_entry
two_refs_valid = refl

saved_valid : validate_ref_entry rect_hash saved ≡ ok tt
unfolding validate_ref_entry
saved_valid = refl

two_refs-Distinct : Distinct two_refs.inner
unfolding lookup
two_refs-Distinct = (refl, (refl, tt))

validate_iff_example :
    (validate rect_hash two_refs ≡ ok tt)
    ↔ (AllEntries rect_hash 2 two_refs.inner × (two_refs.counter ≢ u32_max))
validate_iff_example = validate_iff rect_hash two_refs

try_allocate_keeps_valid_example :
    (r : Text × RefMap) × (try_allocate rect_hash two_refs saved ≡ ok r)
    × Allocates rect_hash two_refs saved r.0 r.1
    × (validate rect_hash r.1 ≡ ok tt)
try_allocate_keeps_valid_example =
    try_allocate_keeps_valid rect_hash two_refs saved two_refs_valid (omega arith) saved_valid

-- A map that has given out all numbers but one.
abbrev almost_full : RefMap
almost_full = record two_refs { counter = 4294967294 }

almost_full_valid : validate rect_hash almost_full ≡ ok tt
unfolding validate validate_entries validate_ref_entry
almost_full_valid = refl

try_allocate_last_example :
    (r : Text × RefMap) × (try_allocate rect_hash almost_full saved ≡ ok r)
    × (validate rect_hash r.1 ≢ ok tt)
try_allocate_last_example =
    try_allocate_last rect_hash almost_full saved almost_full_valid refl saved_valid

remove_by_root_ref_lem_example :
    (get (remove_by_root_ref two_refs (codes "@e1")) (codes "@e1") ≡ get two_refs (codes "@e1"))
    × ((get (remove_by_root_ref two_refs (codes "@e1")) (codes "@e2") ≡ some saved) ↔ (
        (get two_refs (codes "@e2") ≡ some saved)
        × Survives (codes "@e1") (get two_refs (codes "@e1")) saved))
    × ((remove_by_root_ref two_refs (codes "@e1")).counter ≡ 2)
unfolding text_eq
remove_by_root_ref_lem_example =
    remove_by_root_ref_lem two_refs (codes "@e1") (codes "@e2") saved two_refs-Distinct
      (differ (codes "@e2") (codes "@e1") refl)

-- An entry that was found below the root, and the map with it.
abbrev owned : RefEntry
owned = entry_at (some (codes "@e1")) (0 ∷ 2 ∷ [])

abbrev three_refs : RefMap
three_refs = record {
  inner =
      (codes "@e1", entry_at none (0 ∷ []))
      ∷ (codes "@e2", entry_at (some (codes "@e1")) (0 ∷ 1 ∷ []))
      ∷ (codes "@e3", owned)
      ∷ [];
  counter = 3;
}

owned_allocated : try_allocate rect_hash two_refs owned ≡ ok (codes "@e3", three_refs)
unfolding try_allocate validate_ref_entry allocate_validated ref_key insert
owned_allocated = refl

remove_by_root_ref-Grows_example :
    ((remove_by_root_ref three_refs (codes "@e1")).inner
      ≡ (remove_by_root_ref two_refs (codes "@e1")).inner)
    × (get (remove_by_root_ref three_refs (codes "@e1")) (codes "@e1")
        ≡ some (entry_at none (0 ∷ [])))
unfolding get
remove_by_root_ref-Grows_example =
    remove_by_root_ref-Grows rect_hash (codes "@e1") (entry_at none (0 ∷ [])) two_refs three_refs
      two_refs_valid two_refs-Distinct refl
      (next two_refs three_refs owned (codes "@e3", three_refs) refl owned_allocated
        (stop three_refs))
