-- ===== src/Examples/Dispatching.antt =====
-- The theorems on a whole ref action at a text field that is typed into after a wait, and on a store
-- that is full.
use agent_desktop.SnapshotStore.{
  DirEntry, filter, is_retained, max_saved_snapshots, prune_low_water, prune_old_snapshots, sort,
}
use agent_desktop.SnapshotStore.Eviction.{
  Ordered, drop_first, is_latest, is_other, prune_old_snapshots_lem,
}
use agent_desktop.SnapshotId.{is_snapshot_id, is_snapshot_char}
use agent_desktop.Text.{len, is_ascii_alphanumeric, Text, codes, text_eq}
use agent_desktop.Prelude.{
  List, Option, [], arith, false, length, none, ok, refl, some, suc, true, zero, ℕ, ◌*◌, ◌+◌, ◌-◌,
  ◌<◌, ◌^◌, ◌∷◌, ◌≡◌, ◌≤◌,
}
use agent_desktop.Error.{DeliverySemantics}
use agent_desktop.Policy.{headless, is_headed}
use agent_desktop.Geometry.{F64, Rect}
use agent_desktop.RefEntry.{RefEntry, window}
use agent_desktop.Action.{
  ActionRequest, request_with, requires_scroll_into_view, requires_state_readback, type_text,
}
use agent_desktop.Capability.{has_state}
use agent_desktop.Actionability.{not_applicable, requirements_for}
use agent_desktop.Actionability.Gates.{Arithmetic}
use agent_desktop.Actionability.Check.{ActionabilityReport, from_checks}
use agent_desktop.Deadline.{Deadline, is_expired, millisecond}
use agent_desktop.Locator.{absent, known}
use agent_desktop.PostAction.{ActionResult, LiveElement, delivered_unverified_result}
use agent_desktop.PostAction.Execute.{ElementPort}
use agent_desktop.RefAction.Dispatch.{ActionPort}
use agent_desktop.RefAction.Dispatch.Deliver.{execute_with_deadline}
use agent_desktop.RefAction.Dispatch.Reads.{Once, Performs}
use agent_desktop.RefAction.Dispatch.AtMostOnce.{execute_with_deadline-Once}

abbrev flat : Arithmetic
flat = record { add = λ a b. a; sub = λ a b. 0; mul = λ a b. a; div = λ a b. a }

abbrev not_a_number : Text → Option F64
not_a_number t = none

abbrev zero_hash : Rect → ℕ
zero_hash r = 0

-- The world: the clock, and how often the field was typed into.
abbrev Desk : Type 0
Desk = ℕ × ℕ

abbrev value_now : ℕ → Text
value_now zero = []
value_now (suc n) = codes "b"

abbrev field_with : Text → LiveElement
field_with value = record {
  identity = record {
    name = known (codes "Search");
    description = absent;
    identifiers = record {
      identifiers = [];
      preferred = none;
      complete = true;
      retained_object = none;
    };
  };
  state = record {
    role = codes "textfield";
    states = codes "focused" ∷ [];
    value = some value;
    enabled = some true;
    hidden = some false;
    offscreen = some false;
  };
  states_complete = true;
  bounds = none;
  available_actions = codes "TypeText" ∷ [];
}

abbrev field_port : ElementPort Desk
field_port = record {
  last = 10 ^ 18;
  now = λ w. w.0;
  sleep = λ n w. (w.0 + n, w.1);
  get_live_element = λ d w. (ok (field_with (value_now w.1)), w);
  get_text_selection = λ d w. (ok none, w);
  execute_action = λ request w. (ok (delivered_unverified_result "type"), (w.0, w.1 + 1));
}

abbrev fine : ActionabilityReport
fine = from_checks [] none none none not_applicable

abbrev desk_port : ActionPort Desk ℕ
desk_port = record {
  last = 10 ^ 18;
  now = λ w. w.0;
  sleep = λ n w. (w.0 + n, w.1);
  resolve_element_strict = λ d w. (ok 7, (w.0 + millisecond, w.1));
  check_actionability = λ handle request x w. (ok fine, (w.0 + millisecond, w.1));
  get_element_bounds = λ handle d w. (ok none, w);
  scroll_into_view = λ handle w. (ok tt, w);
  acquire_interaction_lease = λ d w. (ok tt, w);
  focus_entry_window = λ w. (ok tt, w);
  trace_start = λ w. (ok tt, w);
  trace_done = λ w. (ok tt, w);
  element = λ handle. field_port;
}

desk-Performs : Performs desk_port
desk-Performs = record {
  performed = λ w. w.1;
  sleeps = λ n w. refl;
  resolves = λ d w. refl;
  checks = λ handle request x w. refl;
  reads = λ handle d w. refl;
  scrolls = λ handle w. refl;
  leases = λ d w. refl;
  focuses = λ w. refl;
  starts = λ w. refl;
  ends = λ w. refl;
  element_sleeps = λ handle n w. refl;
  element_reads = λ handle d w. refl;
  element_selects = λ handle d w. refl;
  element_executes = λ handle request w. refl;
}

abbrev search_entry : RefEntry
search_entry = record {
  process = record { pid = 7; process_instance = some (codes "p1") };
  identity = record {
    retained_object = none;
    role = codes "textfield";
    name = some (codes "Search");
    value = none;
    description = none;
    native_id = none;
  };
  geometry = record { bounds = none; bounds_hash = none };
  capabilities = record { states = []; available_actions = codes "TypeText" ∷ [] };
  source = record {
    source_app = some (codes "Notes");
    source_window_id = none;
    source_window_title = none;
    source_window_bounds_hash = none;
    source_surface = window;
  };
  scope = record { root_ref = none; path_is_absolute = true; path = 0 ∷ [] };
}

abbrev type_b : ActionRequest
type_b = record (request_with headless (type_text (codes "b"))) { timeout_ms = some 1000 }

abbrev second : Deadline
second = record {
  started_at = 0;
  expires_at = 1000 * millisecond;
  timeout_ms = 1000;
  was_capped = false;
}

abbrev typed_result : ActionResult
typed_result = record {
  action = "type";
  post_state = some (field_with (codes "b")).state;
  steps = [];
  disposition = DeliverySemantics.delivered_verified;
}

typed_run :
    execute_with_deadline zero_hash flat not_a_number desk_port search_entry second 3 3 type_b
      (0, 0)
    ≡ some (ok typed_result, (4 * millisecond, 1))
unfolding execute_with_deadline is_expired is_headed requires_scroll_into_view text_eq
    requirements_for requires_state_readback has_state from_checks
typed_run = refl

execute_with_deadline-Once_example :
    Once desk-Performs (desk-Performs.performed (0, 0)) (ok typed_result, (4 * millisecond, 1))
execute_with_deadline-Once_example =
    execute_with_deadline-Once zero_hash flat not_a_number desk_port search_entry second
      desk-Performs 3 3 type_b (0, 0) (4 * millisecond, 1) (ok typed_result) typed_run

-- A store of 130 snapshots, the first of which is the latest.
abbrev snapshot_at : Text → ℕ → DirEntry
snapshot_at id modified = record { id = id; is_dir = true; modified = modified }

abbrev older : ℕ → List DirEntry
older zero = []
older (suc n) = snapshot_at (codes "s0001") n ∷ older n

abbrev full_store : List DirEntry
full_store = snapshot_at (codes "s9999") 500 ∷ older 129

full_store_is_full : max_saved_snapshots < length (filter is_retained full_store)
unfolding is_retained is_snapshot_id len is_snapshot_char is_ascii_alphanumeric
full_store_is_full = omega arith

one_latest :
    length (filter (is_latest (codes "s9999")) (filter is_retained full_store)) ≤ prune_low_water
unfolding is_retained is_snapshot_id len is_snapshot_char is_ascii_alphanumeric text_eq
one_latest = omega arith

prune_old_snapshots_lem_example :
    Ordered (sort (filter is_retained full_store))
    × (filter (is_latest (codes "s9999")) (prune_old_snapshots (codes "s9999") full_store)
        ≡ filter (is_latest (codes "s9999")) (sort (filter is_retained full_store)))
    × (filter (is_other (codes "s9999")) (prune_old_snapshots (codes "s9999") full_store)
        ≡ drop_first
            (length (filter is_retained full_store) - prune_low_water)
            (filter (is_other (codes "s9999")) (sort (filter is_retained full_store))))
    × (length (prune_old_snapshots (codes "s9999") full_store) ≡ prune_low_water)
prune_old_snapshots_lem_example =
    prune_old_snapshots_lem (codes "s9999") full_store full_store_is_full one_latest
