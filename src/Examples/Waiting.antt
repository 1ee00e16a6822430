-- ===== src/Examples/Waiting.antt =====
-- The theorems on deadlines and on the poll loop at a click whose target settles after 30 ms.
use agent_desktop.RefAction.{
  default_poll_state, no_details, ActionError, RefActionPollState, pre_dispatch,
}
use agent_desktop.Deadline.Scopes.{
  Run, Thread, Within, WithinAll, after-WithinAll, enter, next, no_scope, stop,
}
use agent_desktop.Deadline.Rounding.{remaining_ms-covers}
use agent_desktop.Prelude.{
  Result, [], ap, arith, err, false, if◌then◌else◌, ltb, none, ok, refl, some, sym, ℕ, ◌*◌, ◌+◌,
  ◌^◌, ◌∷◌, ◌≡◌, true, ◌<◌, ◌≤◌, Option, ◌⊎◌,
}
use agent_desktop.Text.{text_eq, codes, Text}
use agent_desktop.Error.{
  DeliverySemantics, action_failed, new, policy_denied, with_disposition, retry, safe,
}
use agent_desktop.Policy.{headless}
use agent_desktop.Action.{requires_scroll_into_view, ActionRequest, click, request_with}
use agent_desktop.Deadline.{
  is_expired, remaining, max_u64, remaining_ms, after, Deadline, millisecond, enter_scope,
}
use agent_desktop.RefAction.Poll.{Platform, execute_poll_loop}
use agent_desktop.RefAction.Poll.Clock.{IsClock, execute_poll_loop_total}
use agent_desktop.RefAction.Preflight.{LiveAdapter, live_platform, preflight_resolved}
use agent_desktop.RefAction.Preflight.Quiet.{FromTrace, IsReadOnly, err-injective}
use agent_desktop.RefAction.Preflight.RetrySafety.{execute_poll_loop_safe}
use agent_desktop.Actionability.{unknown_hit}
use agent_desktop.Actionability.Gates.{Arithmetic}
use agent_desktop.Geometry.{F64, Rect}
use agent_desktop.RefEntry.{RefEntry, SnapshotSurface}

abbrev last : ℕ
last = 10 ^ 18

abbrev second : Deadline
second = record {
  started_at = 0;
  expires_at = 1000 * millisecond;
  timeout_ms = 1000;
  was_capped = false;
}

abbrev unsettled : ActionError
unsettled = record {
  error = with_disposition DeliverySemantics.not_delivered (new action_failed "not actionable");
  details = some (record no_details {
    checks = some (record { check = some (codes "stable"); status = some (codes "fail") } ∷ []);
  });
}

-- A read that is denied, and what the preflight makes of its error.
abbrev denied_read : ActionError
denied_read = record { error = new policy_denied "not allowed"; details = none }

abbrev denied : ActionError
denied = record {
  error = with_disposition DeliverySemantics.not_delivered (new policy_denied "not allowed");
  details = none;
}

-- The world is the clock. A resolution takes a millisecond, a preflight two.
abbrev settling : Platform ℕ ℕ
settling = record {
  last = last;
  now = λ w. w;
  sleep = λ n w. w + n;
  resolve_element_strict = λ d w. (ok 7, w + millisecond);
  preflight = λ handle x w.
      (if ltb w (30 * millisecond) then err unsettled else ok tt, w + 2 * millisecond);
}

abbrev forbidding : LiveAdapter ℕ ℕ
forbidding = record {
  last = last;
  now = λ w. w;
  sleep = λ n w. w + n;
  resolve_element_strict = λ d w. (ok 7, w + millisecond);
  get_live_element = λ handle d w. (err denied_read, w + 2 * millisecond);
  hit_test = λ handle d w n p. ok unknown_hit;
  hit_test_details = λ handle d w. none;
  hit_tested = λ handle d w. w;
  trace_start = λ w. (ok tt, w);
  trace_error = λ e w. w;
  trace_ok = λ report w. (ok tt, w);
}

settling-IsClock : IsClock settling
settling-IsClock = record {
  sleeps = λ n w. omega arith;
  resolves = λ d w. omega arith;
  preflights = λ handle x w. omega arith;
}

forbidding-IsReadOnly : IsReadOnly forbidding
forbidding-IsReadOnly = record {
  resolve_quiet = λ d w e h. cc h;
  live_quiet = λ handle d w e h. ap (λ f. pre_dispatch f.error.disposition) (sym (err-injective h));
  hit_quiet = λ handle d w n p e h. cc h;
}

abbrev integers : Arithmetic
integers = record { add = λ a b. a; sub = λ a b. 0; mul = λ a b. a; div = λ a b. a }

abbrev no_number : Text → Option F64
no_number t = none

abbrev rect_hash : Rect → ℕ
rect_hash r = r.x

abbrev button : RefEntry
button = record {
  process = record { pid = 7; process_instance = some (codes "boot-1") };
  identity = record {
    retained_object = none;
    role = codes "button";
    name = some (codes "Save");
    value = none;
    description = none;
    native_id = none;
  };
  geometry = record { bounds = none; bounds_hash = none };
  capabilities = record { states = []; available_actions = codes "Click" ∷ [] };
  source = record {
    source_app = some (codes "Editor");
    source_window_id = none;
    source_window_title = none;
    source_window_bounds_hash = none;
    source_surface = SnapshotSurface.window;
  };
  scope = record { root_ref = none; path_is_absolute = false; path = [] };
}

abbrev press : ActionRequest
press = request_with headless click

abbrev polled : RefActionPollState
polled = record default_poll_state {
  resolve_attempts = 3;
  preflight_attempts = 3;
  live_read_incomplete_only = some false;
}

execute_poll_loop_total_example :
    (result : Result ActionError RefActionPollState) × (w' : ℕ) × (execute_poll_loop settling 64
        press second default_poll_state 0
      ≡ some (result, w'))
execute_poll_loop_total_example =
    execute_poll_loop_total settling settling-IsClock press second default_poll_state 0 63
      (omega arith)

abbrev forbidden : Platform ℕ ℕ
forbidden = live_platform no_number rect_hash integers forbidding button press second

denied_run :
    execute_poll_loop forbidden 1 press second default_poll_state 0
    ≡ some (err denied, 3 * millisecond)
unfolding execute_poll_loop is_expired requires_scroll_into_view text_eq preflight_resolved
denied_run = refl

execute_poll_loop_safe_example :
    ((denied.error.disposition ≡ DeliverySemantics.not_delivered)
      × (retry denied.error.disposition ≡ safe))
    ⊎ FromTrace no_number rect_hash integers forbidding button press second denied
execute_poll_loop_safe_example =
    execute_poll_loop_safe no_number rect_hash integers forbidding forbidding-IsReadOnly button
      press second 1 default_poll_state 0 (3 * millisecond) denied denied_run

-- A scope of one second, and a deadline of five seconds made inside it half a second later.
abbrev inside : Thread
inside = record {
  inherited = (enter_scope none (some second)).0;
  guards = (enter_scope none (some second)).1 ∷ [];
}

entered : Run no_scope inside
entered = next stop (enter (some second))

abbrev limited : Deadline
limited = record {
  started_at = 500 * millisecond;
  expires_at = 1000 * millisecond;
  timeout_ms = 5000;
  was_capped = true;
}

limited_made : after last inside.inherited (500 * millisecond) 5000 ≡ ok limited
unfolding after enter_scope
limited_made = refl

after-WithinAll_example :
    Within inside.inherited limited.expires_at × WithinAll inside.guards limited.expires_at
after-WithinAll_example =
    after-WithinAll last inside entered (500 * millisecond) 5000 limited limited_made

half_left : remaining second (500 * millisecond + 1) ≤ max_u64 * millisecond
unfolding remaining
half_left = omega arith

remaining_ms-covers_example :
    (remaining second (500 * millisecond + 1)
      ≤ remaining_ms second (500 * millisecond + 1) * millisecond)
    × (remaining_ms second (500 * millisecond + 1) * millisecond
        < remaining second (500 * millisecond + 1) + millisecond)
remaining_ms-covers_example = remaining_ms-covers second (500 * millisecond + 1) half_left
