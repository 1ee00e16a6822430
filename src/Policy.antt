-- ===== src/Policy.antt =====
-- crates/core/src/interaction_policy.rs and headed_requirement.rs: what a caller allows an action to
-- do to the desktop, and what an action needs of it.
use agent_desktop.Prelude.{Bool, false, not, true, ◌&&◌, ◌||◌}

pub record InteractionPolicy : Type 0 where
  pub allow_focus_steal : Bool
  pub allow_cursor_move : Bool

abbrev pub headless : InteractionPolicy
headless = record { allow_focus_steal = false; allow_cursor_move = false }

abbrev pub focus_fallback : InteractionPolicy
focus_fallback = record { allow_focus_steal = true; allow_cursor_move = false }

abbrev pub headed : InteractionPolicy
headed = record { allow_focus_steal = true; allow_cursor_move = true }

unfoldable pub is_headed : InteractionPolicy → Bool
is_headed p = p.allow_focus_steal && p.allow_cursor_move

unfoldable pub join : InteractionPolicy → InteractionPolicy → InteractionPolicy
join p q = record {
  allow_focus_steal = p.allow_focus_steal || q.allow_focus_steal;
  allow_cursor_move = p.allow_cursor_move || q.allow_cursor_move;
}

-- `policy == InteractionPolicy::headless()`.
unfoldable pub is_headless : InteractionPolicy → Bool
is_headless p = not p.allow_focus_steal && not p.allow_cursor_move

pub data HeadedRequirement : Type 0 where
  nothing focused_window focused_window_and_cursor : HeadedRequirement

unfoldable pub requires_focus : HeadedRequirement → Bool
requires_focus nothing = false
requires_focus _ = true

unfoldable pub requires_cursor : HeadedRequirement → Bool
requires_cursor focused_window_and_cursor = true
requires_cursor _ = false
