-- ===== src/RefMap.antt =====
-- `RefMap` of crates/core/src/refs.rs with ref_allocation.rs. The hash map is an association list
-- of the same entries, each key once; where the source goes through it in the order of the hash,
-- the list's order stands for it.
pub mod Entries
pub mod Allocation
pub mod Below
pub mod Removal
pub mod Redrill
use agent_desktop.Prelude.{
  Bool, List, Option, Result, [], false, guard, if◌then◌else◌, is_none, is_ok, is_some, is_some_and,
  keep_if, length, ltb, max, none, not, ok, ok_or, some, true, ℕ, ◌&&◌, ◌++◌, ◌+◌, ◌==◌, ◌>>=◌,
  ◌>>◌, ◌||◌, ◌∷◌,
}
use agent_desktop.Text.{Text, codes, option_text_eq, strip_prefix, text_eq}
use agent_desktop.Text.Decimal.{parse_u32, show_u32, u32_max}
use agent_desktop.Error.{AppError, invalid_input}
use agent_desktop.Geometry.{Rect}
use agent_desktop.Role.{is_canonical}
use agent_desktop.RefEntry.{RefEntry, process_eq, source_eq, validate_ref_entry}

abbrev pub Entries : Type 0
Entries = List (Text × RefEntry)

pub record RefMap : Type 0 where
  pub inner : Entries
  pub counter : ℕ

pub data RefAllocation : Type 0 where
  allocated : Text → RefAllocation
  skipped_invalid_role skipped_invalid_entry : RefAllocation

-- `HashMap::get` and `HashMap::insert`.
unfoldable pub lookup : Text → Entries → Option RefEntry
unfolding text_eq
lookup k [] = none
lookup k ((j, e) ∷ m) = if text_eq j k then some e else lookup k m

unfoldable pub insert : Text → RefEntry → Entries → Entries
unfolding text_eq
insert k e [] = (k, e) ∷ []
insert k e ((j, d) ∷ m) = if text_eq j k then (j, e) ∷ m else (j, d) ∷ insert k e m

-- `HashMap::retain`.
unfoldable pub retain : (Text → RefEntry → Bool) → Entries → Entries
retain p [] = []
retain p ((k, e) ∷ m) = if p k e then (k, e) ∷ retain p m else retain p m

abbrev pub empty : RefMap
empty = record { inner = []; counter = 0 }

unfoldable pub get : RefMap → Text → Option RefEntry
unfolding lookup
get m ref_id = lookup ref_id m.inner

-- `format!("@e{}", n)`.
unfoldable pub ref_key : ℕ → Text
unfolding show_u32
ref_key n = codes "@e" ++ show_u32 n

abbrev pub exhausted : AppError
exhausted = invalid_input "RefMap exhausted its identifier space"

-- `checked_add(1)` on the counter fails at `u32::MAX`.
unfoldable pub allocate_validated : RefMap → RefEntry → Result AppError (Text × RefMap)
allocate_validated m entry = do
  guard (ltb m.counter u32_max) exhausted
  let ref_id = ref_key (m.counter + 1)
  ok (ref_id, record { inner = insert ref_id entry m.inner; counter = m.counter + 1 })

-- `path.starts_with(prefix)`.
unfoldable pub is_path_prefix : List ℕ → List ℕ → Bool
is_path_prefix [] path = true
is_path_prefix (i ∷ prefix) [] = false
is_path_prefix (i ∷ prefix) (j ∷ path) = i == j && is_path_prefix prefix path

-- An entry lies in the tree below the root's own entry.
unfoldable pub is_descendant : RefEntry → RefEntry → Bool
unfolding process_eq source_eq is_path_prefix
is_descendant parent entry =
    process_eq entry.process parent.process
    && (source_eq entry.source parent.source
        && ((is_none parent.scope.root_ref || parent.scope.path_is_absolute)
            && ((is_none entry.scope.root_ref || entry.scope.path_is_absolute)
                && (is_path_prefix parent.scope.path entry.scope.path
                    && (ltb (length parent.scope.path) (length entry.scope.path)
                        || is_some entry.scope.root_ref)))))

unfoldable pub is_owned : Text → RefEntry → Bool
unfolding option_text_eq
is_owned root entry = option_text_eq entry.scope.root_ref (some root)

-- The closure that `remove_by_root_ref` retains by.
unfoldable pub keeps : Text → Option RefEntry → Text → RefEntry → Bool
keeps root root_entry ref_id entry =
    if text_eq ref_id root
    then true
    else not (is_owned root entry) && not (is_some_and root_entry (λ p. is_descendant p entry))

unfoldable pub remove_by_root_ref : RefMap → Text → RefMap
remove_by_root_ref m root = record m { inner = retain (keeps root (lookup root m.inner)) m.inner }

-- The number of a key: `parse` accepts a sign and leading zeros, so the key is compared with the
-- canonical form of what it reads.
unfoldable pub key_number : Text → Option ℕ
unfolding strip_prefix parse_u32
key_number ref_id =
    keep_if (λ value. ltb 0 value)
      (elim (strip_prefix (codes "@e") ref_id) [ none ↦ none | some value ↦ parse_u32 value ])

module _ (hash : Rect → ℕ) where
  unfoldable pub try_allocate : RefMap → RefEntry → Result AppError (Text × RefMap)
  try_allocate m entry = validate_ref_entry hash entry >> allocate_validated m entry

  unfoldable pub try_allocate_observed :
      RefMap → RefEntry → Result AppError (RefAllocation × RefMap)
  unfolding is_canonical text_eq
  try_allocate_observed m entry =
      if not (is_canonical entry.identity.role) || text_eq entry.identity.role (codes "unknown")
      then ok (skipped_invalid_role, m)
      else if not (is_ok (validate_ref_entry hash entry))
      then ok (skipped_invalid_entry, m)
      else (allocate_validated m entry >>= λ (ref_id, m'). ok (allocated ref_id, m'))

  -- The loop of `RefMap::validate`, which carries the largest number.
  unfoldable pub validate_entries : ℕ → Entries → Result AppError ℕ
  unfolding key_number text_eq ref_key
  validate_entries max_id [] = ok max_id
  validate_entries max_id ((ref_id, entry) ∷ m) = do
    numeric ← ok_or (key_number ref_id) (invalid_input "RefMap contains an invalid ref key")
    guard (text_eq (ref_key numeric) ref_id)
        (invalid_input "RefMap contains a non-canonical ref key")
    validate_ref_entry hash entry
    validate_entries (max max_id numeric) m

  -- `RefMap::validate`.
  unfoldable pub validate : RefMap → Result AppError (Unit {0})
  unfolding validate_entries
  validate m = do
    max_id ← validate_entries 0 m.inner
    guard (not (ltb m.counter max_id || m.counter == u32_max))
        (invalid_input "RefMap counter is inconsistent with its allocated refs")
