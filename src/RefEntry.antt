-- ===== src/RefEntry.antt =====
-- crates/core/src/ref_entry.rs with ref_entry_identity.rs, ref_geometry.rs, ref_capabilities.rs,
-- ref_source.rs, ref_scope.rs, ref_process.rs, element_identifier.rs, identifier_kind.rs,
-- snapshot_surface.rs, and `validate_ref_entry` of refs_validate.rs.
use agent_desktop.Prelude.{
  Bool, List, Option, Result, [], all, false, flatten_options, guard, is_empty, is_none_or, is_ok,
  leb, length, none, not, ok, some, true, ℕ, ◌&&◌, ◌++◌, ◌==◌, ◌>>◌, ◌||◌, ◌∷◌,
}
use agent_desktop.Text.{Text, codes, is_blank, len, option_text_eq, text_eq}
use agent_desktop.Error.{AppError, adapter, invalid_input}
use agent_desktop.Geometry.{Rect, invalid_rect, validate}
use agent_desktop.Geometry
use agent_desktop.Role.{is_canonical}

pub data IdentifierKind : Type 0 where
  ax_identifier ax_dom_identifier automation_id runtime_id atspi_object_path unknown_kind :
      IdentifierKind

unfoldable pub is_known_kind : IdentifierKind → Bool
is_known_kind unknown_kind = false
is_known_kind _ = true

pub record ElementIdentifier : Type 0 where
  pub kind : IdentifierKind
  pub value : Text

pub data SnapshotSurface : Type 0 where
  window focused menu menubar sheet popover : SnapshotSurface
  alert desktop taskbar system_tray quick_settings notification_center : SnapshotSurface
  toolbar dock spotlight menu_bar_extras system_tray_overflow start_menu : SnapshotSurface
  action_center : SnapshotSurface

pub SnapshotSurface-discrete : Discrete SnapshotSurface
SnapshotSurface-discrete = hlevel

pub record RefProcess : Type 0 where
  pub pid : ℕ
  pub process_instance : Option Text

pub record RefEntryIdentity : Type 0 where
  pub retained_object : Option Text
  pub role : Text
  pub name : Option Text
  pub value : Option Text
  pub description : Option Text
  pub native_id : Option ElementIdentifier

pub record RefGeometry : Type 0 where
  pub bounds : Option Rect
  pub bounds_hash : Option ℕ

pub record RefCapabilities : Type 0 where
  pub states : List Text
  pub available_actions : List Text

pub record RefSource : Type 0 where
  pub source_app : Option Text
  pub source_window_id : Option Text
  pub source_window_title : Option Text
  pub source_window_bounds_hash : Option ℕ
  pub source_surface : SnapshotSurface

pub record RefScope : Type 0 where
  pub root_ref : Option Text
  pub path_is_absolute : Bool
  pub path : List ℕ

pub record RefEntry : Type 0 where
  pub process : RefProcess
  pub identity : RefEntryIdentity
  pub geometry : RefGeometry
  pub capabilities : RefCapabilities
  pub source : RefSource
  pub scope : RefScope

unfoldable pub option_eq : Option ℕ → Option ℕ → Bool
option_eq none none = true
option_eq (some a) (some b) = a == b
option_eq _ _ = false

unfoldable pub surface_eq : SnapshotSurface → SnapshotSurface → Bool
surface_eq a b = elim (SnapshotSurface-discrete a b) [ yes e ↦ true | no n ↦ false ]

-- `PartialEq for RefProcess`.
unfoldable pub process_eq : RefProcess → RefProcess → Bool
unfolding option_text_eq
process_eq a b = a.pid == b.pid && option_text_eq a.process_instance b.process_instance

-- `PartialEq for RefSource`.
unfoldable pub source_eq : RefSource → RefSource → Bool
unfolding option_text_eq option_eq surface_eq
source_eq a b =
    option_text_eq a.source_app b.source_app
    && (option_text_eq a.source_window_id b.source_window_id
        && (option_text_eq a.source_window_title b.source_window_title
            && (option_eq a.source_window_bounds_hash b.source_window_bounds_hash
                && surface_eq a.source_surface b.source_surface)))

abbrev pub max_field_bytes : ℕ
max_field_bytes = 65536

abbrev pub max_path_depth : ℕ
max_path_depth = 256

unfoldable pub string_evidence : RefEntry → List Text
string_evidence e = flatten_options (
    e.identity.name ∷ e.identity.value ∷ e.identity.description ∷ e.source.source_app
    ∷ e.source.source_window_id ∷ e.source.source_window_title ∷ e.process.process_instance ∷ [])

unfoldable pub valid_identifier : ElementIdentifier → Bool
unfolding is_blank len is_known_kind
valid_identifier i =
    not (is_blank i.value) && (leb (len i.value) max_field_bytes && is_known_kind i.kind)

-- The check of bounds that an entry carries.
unfoldable pub validate_bounds : (Rect → ℕ) → RefGeometry → Result AppError (Unit {0})
unfolding Geometry.validate Geometry.bounds_hash option_eq
validate_bounds hash g = elim g.bounds [
  | none ↦ ok tt
  | some bounds ↦
      guard (is_ok (Geometry.validate bounds)) (adapter invalid_rect)
      >> guard (option_eq g.bounds_hash (Geometry.bounds_hash hash bounds))
          (invalid_input "RefEntry bounds hash does not match its geometry")
]

unfoldable pub validate_ref_entry : (Rect → ℕ) → RefEntry → Result AppError (Unit {0})
unfolding string_evidence valid_identifier validate_bounds is_canonical text_eq len
validate_ref_entry hash e = do
  guard (not (e.process.pid == 0 || is_none_or e.process.process_instance is_empty))
      (invalid_input "RefEntry requires a positive pid and process instance")
  guard (is_canonical e.identity.role && not (text_eq e.identity.role (codes "unknown")))
      (invalid_input "RefEntry contains an invalid role")
  guard (all (λ field. leb (len field) max_field_bytes) (string_evidence e))
      (invalid_input "RefEntry string evidence exceeds the field limit")
  guard (is_none_or e.identity.native_id valid_identifier)
      (invalid_input "RefEntry contains invalid typed identifier evidence")
  guard (leb (length e.scope.path) max_path_depth) (invalid_input "RefEntry path is too deep")
  validate_bounds hash e.geometry
  guard
      (leb (length e.capabilities.states) 256
        && (leb (length e.capabilities.available_actions) 256
            && all (λ value. leb (len value) 256)
                (e.capabilities.states ++ e.capabilities.available_actions)))
      (invalid_input "RefEntry state or action evidence exceeds its limit")
