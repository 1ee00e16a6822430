-- ===== src/Actionability/Tables.antt =====
-- The tables on actions agree: those of crates/core/src/action.rs, capability.rs and
-- actionability/requirements.rs.
use agent_desktop.Prelude.{List, arith, not, true, ◌||◌, ◌≡◌}
use agent_desktop.Text.{Text}
use agent_desktop.Policy.{requires_cursor}
use agent_desktop.Action.{Action, action_headed_requirement, requires_hit_test}
use agent_desktop.Capability.{contains_any, for_action, supports_direct_semantic_pointer_delivery}
use agent_desktop.Actionability.{requirements_for}

-- An action is hit tested exactly if it must receive events, and every such action needs the cursor
-- once it is headed.
pub hit_test_tables_agree :
    (a : Action)
    → (requires_hit_test a ≡ (requirements_for a).receives_events)
      × ((not (requires_hit_test a) || requires_cursor (action_headed_requirement a)) ≡ true)
unfolding requires_hit_test requirements_for action_headed_requirement requires_cursor
hit_test_tables_agree a = ground arith

-- A target to which an action can be delivered without the pointer advertises a capability for the
-- action, and the action is one that is hit tested when the pointer is used.
pub direct_delivery_advertised :
    (a : Action) (actions : List Text)
    → supports_direct_semantic_pointer_delivery a actions ≡ true
    → (contains_any actions (for_action a) ≡ true) × (requires_hit_test a ≡ true)
unfolding supports_direct_semantic_pointer_delivery for_action contains_any requires_hit_test
direct_delivery_advertised a actions h = ground arith
