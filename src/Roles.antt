-- ===== src/Roles.antt =====
-- crates/core/src/roles.rs: role filters of queries, and the classes of roles.
pub mod Queries
use agent_desktop.Prelude.{
  Bool, List, Option, [], false, if◌then◌else◌, is_some, none, not, some, true, unwrap_or, ◌&&◌,
  ◌||◌, ◌∷◌,
}
use agent_desktop.Text.{Text, codes, text_eq, to_ascii_lowercase, trim}
use agent_desktop.Role.{
  Role, as_str, button, cell, checkbox, combo_box, disclosure, from_token, handle, image,
  incrementor, is_canonical, is_interactive, list_box, menu_button, outline, radio_button,
  scroll_bar, slider, switch, text_field, tree_item,
}

abbrev pub interactive_roles : List Text
interactive_roles =
    codes "button"
    ∷ codes "cell"
    ∷ codes "checkbox"
    ∷ codes "colorwell"
    ∷ codes "combobox"
    ∷ codes "dockitem"
    ∷ codes "incrementor"
    ∷ codes "link"
    ∷ codes "listbox"
    ∷ codes "menubutton"
    ∷ codes "menuitem"
    ∷ codes "option"
    ∷ codes "radiobutton"
    ∷ codes "slider"
    ∷ codes "switch"
    ∷ codes "tab"
    ∷ codes "textfield"
    ∷ codes "treeitem"
    ∷ []

-- The arms of the match in `role_query_alias`.
abbrev pub aliases : List (Text × Role)
aliases =
    (codes "gridcell", cell)
    ∷ (codes "img", image)
    ∷ (codes "radio", radio_button)
    ∷ (codes "searchbox", text_field)
    ∷ (codes "searchfield", text_field)
    ∷ (codes "textarea", text_field)
    ∷ (codes "textbox", text_field)
    ∷ (codes "spinbutton", incrementor)
    ∷ (codes "togglebutton", button)
    ∷ (codes "tree", outline)
    ∷ []

unfoldable pub match_alias : List (Text × Role) → Text → Option Role
unfolding text_eq
match_alias [] t = none
match_alias ((s, r) ∷ arms) t = if text_eq t s then some r else match_alias arms t

unfoldable pub role_query_alias : Text → Option Role
unfolding match_alias
role_query_alias role = match_alias aliases role

unfoldable pub normalize_role_query : Text → Text
unfolding trim to_ascii_lowercase
normalize_role_query role =
    let normalized = to_ascii_lowercase (trim role) in
    as_str (unwrap_or (role_query_alias normalized) (from_token normalized))

unfoldable pub is_valid_role_query : Text → Bool
unfolding trim to_ascii_lowercase
is_valid_role_query role =
    let normalized = to_ascii_lowercase (trim role) in
    is_some (role_query_alias normalized)
    || (not (text_eq normalized (codes "unknown")) && is_canonical normalized)

unfoldable pub is_interactive_role : Text → Bool
unfolding from_token is_interactive
is_interactive_role role = is_interactive (from_token role)

unfoldable pub toggleable : Role → Bool
toggleable checkbox = true
toggleable switch = true
toggleable radio_button = true
toggleable _ = false

unfoldable pub expandable : Role → Bool
expandable combo_box = true
expandable menu_button = true
expandable tree_item = true
expandable disclosure = true
expandable _ = false

unfoldable pub mutable_value : Role → Bool
mutable_value combo_box = true
mutable_value checkbox = true
mutable_value handle = true
mutable_value incrementor = true
mutable_value list_box = true
mutable_value radio_button = true
mutable_value scroll_bar = true
mutable_value slider = true
mutable_value switch = true
mutable_value text_field = true
mutable_value _ = false

unfoldable pub is_toggleable_role : Text → Bool
unfolding from_token toggleable
is_toggleable_role role = toggleable (from_token role)

unfoldable pub is_expandable_role : Text → Bool
unfolding from_token expandable
is_expandable_role role = expandable (from_token role)

unfoldable pub is_mutable_value_role : Text → Bool
unfolding from_token mutable_value
is_mutable_value_role role = mutable_value (from_token role)
