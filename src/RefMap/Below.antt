-- ===== src/RefMap/Below.antt =====
-- Which entries `RefMap::remove_by_root_ref` takes for owned by the root and for lying below it, told
-- by equations of the entries.
use mathlib.Core.Path.{ap₂}
use agent_desktop.Prelude.{
  Bool, List, Option, [], ap, arith, false, inl, inr, is_none, is_some, length, length-append, ltb,
  none, refl, some, true, ℕ, ◌++◌, ◌||◌, ◌↔◌, ◌∷◌, ◌≡◌, ◌≢◌, ◌⊎◌,
}
use agent_desktop.Text.{Text, option_text_eq}
use agent_desktop.RefEntry.{
  RefEntry, RefProcess, RefSource, SnapshotSurface, SnapshotSurface-discrete, option_eq, process_eq,
  source_eq, surface_eq,
}
use agent_desktop.RefMap.{is_descendant, is_owned, is_path_prefix}
use agent_desktop.RefMap.Entries.{text_eq_iff}

option_text_eq_iff : (a b : Option Text) → (option_text_eq a b ≡ true) ↔ (a ≡ b)
unfolding option_text_eq
option_text_eq_iff none none = (λ h. refl, λ e. refl)
option_text_eq_iff none (some t) = (λ h. cc h, λ e. cc e)
option_text_eq_iff (some s) none = (λ h. cc h, λ e. cc e)
option_text_eq_iff (some s) (some t) =
    (λ h. ap some ((text_eq_iff s t).0 h), λ e. ground (arith, text_eq_iff s t))

option_eq_iff : (a b : Option ℕ) → (option_eq a b ≡ true) ↔ (a ≡ b)
unfolding option_eq
option_eq_iff none none = (λ h. refl, λ e. refl)
option_eq_iff none (some t) = (λ h. cc h, λ e. cc e)
option_eq_iff (some s) none = (λ h. cc h, λ e. cc e)
option_eq_iff (some s) (some t) = (λ h. ground arith, λ e. ground arith)

surface_eq_iff : (a b : SnapshotSurface) → (surface_eq a b ≡ true) ↔ (a ≡ b)
unfolding surface_eq
surface_eq_iff a b = decided (SnapshotSurface-discrete a b)
  where
    decided :
        (d : Dec (a ≡ b)) → (◌≡◌ {A = Bool} (elim d [ yes e ↦ true | no n ↦ false ]) true) ↔ (a ≡ b)
    decided (yes e) = (λ h. e, λ q. refl)
    decided (no n) = (λ h. cc h, λ q. absurd (n q))

option_text_eq_refl : (a : Option Text) → option_text_eq a a ≡ true
option_text_eq_refl a = (option_text_eq_iff a a).1 refl

process_eq_iff : (a b : RefProcess) → (process_eq a b ≡ true) ↔ (a ≡ b)
unfolding process_eq
process_eq_iff a b = (same, λ e. rw e (ground (arith, option_text_eq_refl b.process_instance)))
  where
    same : process_eq a b ≡ true → a ≡ b
    same h =
        let pids : a.pid ≡ b.pid = ground arith in
        let instances : option_text_eq a.process_instance b.process_instance ≡ true =
          ground arith in
        ap₂ (λ x y. record { pid = x; process_instance = y }) pids
          ((option_text_eq_iff a.process_instance b.process_instance).0 instances)

-- A source whose fields are equal, one after the other.
source_eq_iff : (a b : RefSource) → (source_eq a b ≡ true) ↔ (a ≡ b)
unfolding source_eq
source_eq_iff a b = (same, λ e. rw e itself)
  where
    itself : source_eq b b ≡ true
    itself = ground (
      arith,
      option_text_eq_refl b.source_app,
      option_text_eq_refl b.source_window_id,
      option_text_eq_refl b.source_window_title,
      (option_eq_iff b.source_window_bounds_hash b.source_window_bounds_hash).1 refl,
      (surface_eq_iff b.source_surface b.source_surface).1 refl,
    )

    same : source_eq a b ≡ true → a ≡ b
    same h =
        let app : option_text_eq a.source_app b.source_app ≡ true = ground arith in
        let id : option_text_eq a.source_window_id b.source_window_id ≡ true = ground arith in
        let title : option_text_eq a.source_window_title b.source_window_title ≡ true =
          ground arith in
        let bounds : option_eq a.source_window_bounds_hash b.source_window_bounds_hash ≡ true =
          ground arith in
        let surface : surface_eq a.source_surface b.source_surface ≡ true = ground arith in
        let first = (option_text_eq_iff a.source_app b.source_app).0 app in
        let second = (option_text_eq_iff a.source_window_id b.source_window_id).0 id in
        let third = (option_text_eq_iff a.source_window_title b.source_window_title).0 title in
        let fourth =
          (option_eq_iff a.source_window_bounds_hash b.source_window_bounds_hash).0 bounds in
        let fifth = (surface_eq_iff a.source_surface b.source_surface).0 surface in
        λ i. record {
          source_app = first i;
          source_window_id = second i;
          source_window_title = third i;
          source_window_bounds_hash = fourth i;
          source_surface = fifth i;
        }

is_path_prefix_sound :
    (prefix path : List ℕ)
    → is_path_prefix prefix path ≡ true
    → (more : List ℕ) × (path ≡ prefix ++ more)
unfolding is_path_prefix
is_path_prefix_sound [] path h = (path, refl)
is_path_prefix_sound (i ∷ prefix) [] h = cc h
is_path_prefix_sound (i ∷ prefix) (j ∷ path) h =
    let (more, e) = is_path_prefix_sound prefix path (ground arith) in (more, ground arith)

is_path_prefix-append : (prefix more : List ℕ) → is_path_prefix prefix (prefix ++ more) ≡ true
unfolding is_path_prefix
is_path_prefix-append [] more = refl
is_path_prefix-append (i ∷ prefix) more = ground (arith, is_path_prefix-append prefix more)

-- The entry lies below the root's own entry: it was seen in the same process and at the same source,
-- the paths of both start at the window, and its path continues the one of the root's entry, by one
-- step at least unless the entry was found below some root itself.
pub record IsBelow (parent entry : RefEntry) : Type 0 where
  pub same_process : entry.process ≡ parent.process
  pub same_source : entry.source ≡ parent.source
  pub parent_from_window : (parent.scope.root_ref ≡ none) ⊎ (parent.scope.path_is_absolute ≡ true)
  pub from_window : (entry.scope.root_ref ≡ none) ⊎ (entry.scope.path_is_absolute ≡ true)
  pub more : List ℕ
  pub continues : entry.scope.path ≡ parent.scope.path ++ more
  pub further : (more ≢ []) ⊎ (entry.scope.root_ref ≢ none)

starts_at_window :
    (root : Option Text) (absolute : Bool)
    → (is_none root || absolute) ≡ true
    → (root ≡ none) ⊎ (absolute ≡ true)
starts_at_window none absolute h = inl refl
starts_at_window (some r) absolute h = inr (ground arith)

at_window :
    (root : Option Text) (absolute : Bool)
    → (root ≡ none) ⊎ (absolute ≡ true)
    → (is_none root || absolute) ≡ true
at_window none absolute h = refl
at_window (some r) absolute (inl e) = cc e
at_window (some r) absolute (inr e) = ground arith

goes_further :
    (root : Option Text) (prefix more : List ℕ)
    → (ltb (length prefix) (length (prefix ++ more)) || is_some root) ≡ true
    → (more ≢ []) ⊎ (root ≢ none)
goes_further (some r) prefix more h = inr (λ e. cc e)
goes_further none prefix [] h = absurd (ground (arith, length-append prefix []))
goes_further none prefix (i ∷ more) h = inl (λ e. cc e)

further_goes :
    (root : Option Text) (prefix more : List ℕ)
    → (more ≢ []) ⊎ (root ≢ none)
    → (ltb (length prefix) (length (prefix ++ more)) || is_some root) ≡ true
further_goes (some r) prefix more h = ground arith
further_goes none prefix [] (inl n) = absurd (n refl)
further_goes none prefix [] (inr n) = absurd (n refl)
further_goes none prefix (i ∷ more) h = ground (arith, length-append prefix (i ∷ more))

is_descendant_sound :
    (parent entry : RefEntry) → is_descendant parent entry ≡ true → IsBelow parent entry
unfolding is_descendant
is_descendant_sound parent entry h =
    let process : process_eq entry.process parent.process ≡ true = ground arith in
    let source : source_eq entry.source parent.source ≡ true = ground arith in
    let path : is_path_prefix parent.scope.path entry.scope.path ≡ true = ground arith in
    let (more, e) = is_path_prefix_sound parent.scope.path entry.scope.path path in
    let longer : (ltb (length parent.scope.path) (length entry.scope.path)
          || is_some entry.scope.root_ref)
        ≡ true =
      ground arith in
    record {
      same_process = (process_eq_iff entry.process parent.process).0 process;
      same_source = (source_eq_iff entry.source parent.source).0 source;
      parent_from_window =
          starts_at_window parent.scope.root_ref parent.scope.path_is_absolute (ground arith);
      from_window =
          starts_at_window entry.scope.root_ref entry.scope.path_is_absolute (ground arith);
      more = more;
      continues = e;
      further = goes_further entry.scope.root_ref parent.scope.path more (rw e at longer);
    }

is_descendant_complete :
    (parent entry : RefEntry) → IsBelow parent entry → is_descendant parent entry ≡ true
unfolding is_descendant
is_descendant_complete parent entry b =
    let process = (process_eq_iff entry.process parent.process).1 b.same_process in
    let source = (source_eq_iff entry.source parent.source).1 b.same_source in
    let start =
      at_window parent.scope.root_ref parent.scope.path_is_absolute b.parent_from_window in
    let here = at_window entry.scope.root_ref entry.scope.path_is_absolute b.from_window in
    let longer = further_goes entry.scope.root_ref parent.scope.path b.more b.further in
    let path = is_path_prefix-append parent.scope.path b.more in rw b.continues (ground arith)

pub is_descendant_iff :
    (parent entry : RefEntry) → (is_descendant parent entry ≡ true) ↔ IsBelow parent entry
is_descendant_iff parent entry =
    (is_descendant_sound parent entry, is_descendant_complete parent entry)

pub is_owned_iff :
    (root : Text) (entry : RefEntry)
    → (is_owned root entry ≡ true) ↔ (entry.scope.root_ref ≡ some root)
unfolding is_owned
is_owned_iff root entry = option_text_eq_iff entry.scope.root_ref (some root)
