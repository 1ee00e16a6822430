-- ===== src/Examples/Elements.antt =====
-- The theorems on live elements at a text field that is typed into.
use agent_desktop.Policy.{is_headed, is_headless, requires_cursor, headless}
use agent_desktop.Action.{
  action_headed_requirement, may_use_focus_fallback, requires_cursor_policy, requires_hit_test,
  writes_element_value, ActionRequest, name, request_with, type_text, requires_state_readback,
}
use agent_desktop.Capability.{
  bounds_are_visible, contains, contains_any, for_action, has_state,
  supports_direct_semantic_pointer_delivery,
}
use agent_desktop.Actionability.{
  pointer_delivery_of, requirements_for, requires_geometry, requires_stability,
  StabilityExpectation, not_applicable, reaches_target,
}
use agent_desktop.Actionability.Gates.{
  action_supported, editable, enabled, geometry_matches, policy_check, stability_check,
  stability_permissive, stability_strict, stability_verdict, visibility, visibility_bounds,
  visibility_state, Arithmetic,
}
use agent_desktop.Actionability.Check.{
  candidate_points, center_point, check_with_stability, finish, first_blocking_code, from_checks,
  gate_checks, hit_checks, inconclusive, is_blocking, probe, push_if, receives_events_check,
  suggestion_for, ActionabilityReport, HitTest,
}
use agent_desktop.Text.{text_eq, Text, codes}
use agent_desktop.Geometry.{
  abs, bounds_hash, is_finite, is_nan, is_negative, is_valid_rect, le_f64, lt_f64, F64, Rect,
}
use agent_desktop.RefEntry.{RefEntry, window}
use agent_desktop.LiveCheck.{check_live_with_stability, evidence_of}
use agent_desktop.LiveCheck.Identity.{IsSameElement, check_live-IsSameElement}
use agent_desktop.PostAction.Fulfilled.{Fulfilled}
use agent_desktop.PostAction.Verified.{execute_verified_action-verified}
use agent_desktop.PostAction.Settled.{PortClock, ReadAt, settle_stops}
use agent_desktop.PostAction.Insertion.{expected_insertion-splices}
use agent_desktop.PostAction.{
  ActionResult, LiveElement, delivered_unverified_result, drop, expected_insertion,
}
use agent_desktop.PostAction.Execute.{
  ElementPort, execute_verified_action, keeps_settling, settle, settle_step,
}
use agent_desktop.PostAction.Once.{Counts, execute_verified_action-once}
use agent_desktop.RefIdentity.Completion.{LaterIdentifiers, Settles, identity_match-Settles}
use agent_desktop.RefIdentity.{identity_match}
use agent_desktop.Locator.{LocatorField, absent, known, unread}
use agent_desktop.Text.Utf16.{encode_utf16, is_scalar}
use agent_desktop.Prelude.{
  Option, [], all, arith, false, inl, inr, is_ok, none, ok, refl, some, suc, take, true, zero, ℕ,
  ◌*◌, ◌++◌, ◌+◌, ◌^◌, ◌∷◌, ◌≡◌, ◌≤◌, Result, err,
}
use agent_desktop.Error.{DeliverySemantics, AdapterError}
use agent_desktop.Identifiers.{IdentifierEvidence}
use agent_desktop.Deadline.{Deadline, millisecond, remaining}

-- Integers would do as numbers here: the texts are not numbers.
abbrev flat : Arithmetic
flat = record { add = λ a b. a; sub = λ a b. 0; mul = λ a b. a; div = λ a b. a }

abbrev not_a_number : Text → Option F64
not_a_number t = none

abbrev no_identifiers : IdentifierEvidence
no_identifiers = record {
  identifiers = [];
  preferred = none;
  complete = true;
  retained_object = none;
}

abbrev field_with : LocatorField Text → Text → LiveElement
field_with name value = record {
  identity = record { name = name; description = absent; identifiers = no_identifiers };
  state = record {
    role = codes "textfield";
    states = codes "focused" ∷ [];
    value = some value;
    enabled = some true;
    hidden = some false;
    offscreen = some false;
  };
  states_complete = true;
  bounds = some (record { x = 0; y = 0; width = 0x4049000000000000; height = 0x4034000000000000 });
  available_actions = codes "TypeText" ∷ [];
}

abbrev search_name : LocatorField Text
search_name = known (codes "Search")

-- The world: the clock, and how often the field was typed into.
abbrev Desk : Type 0
Desk = ℕ × ℕ

abbrev value_now : ℕ → Text
value_now zero = codes "ac"
value_now (suc n) = codes "abc"

abbrev port : ElementPort Desk
port = record {
  last = 10 ^ 18;
  now = λ w. w.0;
  sleep = λ n w. (w.0 + n, w.1);
  get_live_element = λ d w. (ok (field_with search_name (value_now w.1)), w);
  get_text_selection = λ d w. (ok (some (1, 1)), w);
  execute_action = λ request w. (ok (delivered_unverified_result "type"), (w.0, w.1 + 1));
}

port-Counts : Counts port
port-Counts = record {
  performed = λ w. w.1;
  sleeps = λ n w. refl;
  reads = λ d w. refl;
  selects = λ d w. refl;
  executes = λ request w. refl;
}

abbrev type_b : ActionRequest
type_b = request_with headless (type_text (codes "b"))

abbrev lease : Deadline
lease = record {
  started_at = 0;
  expires_at = 1000 * millisecond;
  timeout_ms = 1000;
  was_capped = false;
}

abbrev typed_result : ActionResult
typed_result = record {
  action = "type";
  post_state = some (field_with search_name (codes "abc")).state;
  steps = [];
  disposition = DeliverySemantics.delivered_verified;
}

typed_run :
    execute_verified_action flat not_a_number port type_b lease (0, 0) ≡ (ok typed_result, (0, 1))
unfolding execute_verified_action text_eq
typed_run = refl

execute_verified_action-once_example :
    port-Counts.performed (execute_verified_action flat not_a_number port type_b lease (0, 0)).1
    ≡ port-Counts.performed (0, 0) + 1
execute_verified_action-once_example =
    execute_verified_action-once flat not_a_number port port-Counts type_b lease (0, 0)

types_with_readback : requires_state_readback type_b.action ≡ true
unfolding requires_state_readback writes_element_value
types_with_readback = refl

execute_verified_action-verified_example :
    (element : LiveElement) × ReadAt flat not_a_number port lease (ok element, (0, 1))
    × Fulfilled flat not_a_number port type_b type_b.action lease (0, 0) element
execute_verified_action-verified_example =
    execute_verified_action-verified flat not_a_number port type_b lease (0, 0) (0, 1) typed_result
      types_with_readback typed_run refl

port-PortClock : PortClock port
port-PortClock = record { sleeps = λ n w. omega arith; reads = λ d w. omega arith }

time_for_eight : remaining (record lease { expires_at = 400 * millisecond }) 0 ≤ 8 * settle_step
unfolding remaining
time_for_eight = omega arith

settle_stops_example :
    keeps_settling flat not_a_number port is_ok
      (record lease { expires_at = 400 * millisecond })
      (settle flat not_a_number port 8 is_ok lease
        (record lease { expires_at = 400 * millisecond })
        (ok (field_with search_name (codes "ac")))
        (0, 0)).0
      (settle flat not_a_number port 8 is_ok lease
        (record lease { expires_at = 400 * millisecond })
        (ok (field_with search_name (codes "ac")))
        (0, 0)).1
    ≡ false
settle_stops_example =
    settle_stops flat not_a_number port port-PortClock 8 is_ok lease
      (record lease { expires_at = 400 * millisecond }) (ok (field_with search_name (codes "ac")))
      (0, 0) time_for_eight

-- A character outside the basic plane takes two units.
inserted :
    expected_insertion (0x1f600 ∷ codes "c") (codes "b") (some (2, 2)) ≡ some (0x1f600 ∷ codes "bc")
unfolding expected_insertion
inserted = refl

scalars : all is_scalar (0x1f600 ∷ codes "c") ≡ true
unfolding is_scalar
scalars = refl

scalar_b : all is_scalar (codes "b") ≡ true
unfolding is_scalar
scalar_b = refl

expected_insertion-splices_example :
    encode_utf16 (0x1f600 ∷ codes "bc")
    ≡ take 2 (encode_utf16 (0x1f600 ∷ codes "c"))
      ++ encode_utf16 (codes "b")
      ++ drop 2 (encode_utf16 (0x1f600 ∷ codes "c"))
expected_insertion-splices_example =
    expected_insertion-splices (0x1f600 ∷ codes "c") (codes "b") (0x1f600 ∷ codes "bc") 2 2 scalars
      scalar_b inserted

abbrev search_entry : RefEntry
search_entry = record {
  process = record { pid = 7; process_instance = some (codes "p1") };
  identity = record {
    retained_object = none;
    role = codes "textfield";
    name = some (codes "Search");
    value = none;
    description = none;
    native_id = none;
  };
  geometry = record { bounds = none; bounds_hash = none };
  capabilities = record { states = []; available_actions = codes "TypeText" ∷ [] };
  source = record {
    source_app = some (codes "Notes");
    source_window_id = none;
    source_window_title = none;
    source_window_bounds_hash = none;
    source_surface = window;
  };
  scope = record { root_ref = none; path_is_absolute = true; path = 0 ∷ [] };
}

no_identifiers-LaterIdentifiers : LaterIdentifiers no_identifiers no_identifiers
no_identifiers-LaterIdentifiers = record {
  finished = λ c. refl;
  retained = inl refl;
  extended = λ i h. h;
}

identity_match-Settles_example :
    Settles
      (identity_match not_a_number search_entry unread absent absent no_identifiers)
      (identity_match not_a_number search_entry search_name absent absent no_identifiers)
identity_match-Settles_example =
    identity_match-Settles not_a_number search_entry unread search_name absent absent absent absent
      no_identifiers no_identifiers (inl refl) (inr refl) (inr refl) no_identifiers-LaterIdentifiers

abbrev unused_hits : HitTest
unused_hits = λ n p. ok reaches_target

abbrev live_field : Result AdapterError LiveElement
live_field = ok (field_with search_name (codes "ac"))

abbrev steady : StabilityExpectation
steady = record { bounds_hash = none; bounds = none; strict = false; samples = 1; span_ms = 0 }

abbrev report_of : Result AdapterError ActionabilityReport → ActionabilityReport
report_of (ok r) = r
report_of (err e) = from_checks [] none none none not_applicable

abbrev zero_hash : Rect → ℕ
zero_hash r = 0

abbrev live_report : ActionabilityReport
live_report = report_of (
    check_live_with_stability not_a_number zero_hash flat search_entry live_field unused_hits type_b
      steady)

live_accepted :
    check_live_with_stability not_a_number zero_hash flat search_entry live_field unused_hits type_b
      steady
    ≡ ok live_report
unfolding check_live_with_stability check_with_stability gate_checks push_if requirements_for
    visibility visibility_state requires_geometry is_headless
    supports_direct_semantic_pointer_delivery contains text_eq visibility_bounds bounds_are_visible
    is_valid_rect lt_f64 requires_stability pointer_delivery_of is_headed action_headed_requirement
    may_use_focus_fallback requires_cursor_policy requires_hit_test writes_element_value
    candidate_points center_point finish first_blocking_code from_checks hit_checks inconclusive
    is_blocking probe receives_events_check suggestion_for action_supported editable enabled
    geometry_matches policy_check stability_check stability_permissive stability_strict
    stability_verdict contains_any for_action has_state abs bounds_hash is_finite is_nan is_negative
    le_f64 requires_cursor
live_accepted = refl

check_live-IsSameElement_example :
    (element : LiveElement) × (live_field ≡ ok element)
    × IsSameElement not_a_number search_entry element
    × (check_with_stability zero_hash flat steady
          (evidence_of not_a_number element)
          type_b
          (some unused_hits)
        ≡ ok live_report)
check_live-IsSameElement_example =
    check_live-IsSameElement not_a_number zero_hash flat search_entry live_field unused_hits type_b
      steady live_report live_accepted
