-- ===== src/Role.antt =====
-- crates/core/src/role.rs: the canonical roles, their tokens, and which of them are interactive.
pub mod Tokens
use agent_desktop.Text.{Text, codes, text_eq, to_ascii_lowercase, trim}
use agent_desktop.Prelude.{Bool, List, [], false, if◌then◌else◌, true, ◌||◌, ◌∷◌}

pub data Role : Type 0 where
  alert alert_dialog application article banner browser : Role
  button cell checkbox color_well column combo_box : Role
  complementary content_info date_field definition dialog disclosure : Role
  dock_item document drawer form grid group : Role
  handle heading help_tag image incrementor layout_item : Role
  level_indicator link list list_box log main : Role
  marquee matte math menu menu_button menu_item : Role
  navigation note option outline page paragraph : Role
  popover progress_bar radio_button radio_group region relevance_indicator : Role
  row ruler ruler_marker scroll_area scroll_bar search : Role
  separator sheet slider splitter static_text status : Role
  switch tab tab_list tab_panel table text_field : Role
  term time_field timer toolbar tooltip tree_item : Role
  web_area window unknown : Role

-- The arms of the match in `Role::from_token`, in their order.
abbrev pub tokens : List (Text × Role)
tokens =
    (codes "alert", alert)
    ∷ (codes "alertdialog", alert_dialog)
    ∷ (codes "application", application)
    ∷ (codes "article", article)
    ∷ (codes "banner", banner)
    ∷ (codes "browser", browser)
    ∷ (codes "button", button)
    ∷ (codes "cell", cell)
    ∷ (codes "checkbox", checkbox)
    ∷ (codes "colorwell", color_well)
    ∷ (codes "column", column)
    ∷ (codes "combobox", combo_box)
    ∷ (codes "complementary", complementary)
    ∷ (codes "contentinfo", content_info)
    ∷ (codes "datefield", date_field)
    ∷ (codes "definition", definition)
    ∷ (codes "dialog", dialog)
    ∷ (codes "disclosure", disclosure)
    ∷ (codes "dockitem", dock_item)
    ∷ (codes "document", document)
    ∷ (codes "drawer", drawer)
    ∷ (codes "form", form)
    ∷ (codes "grid", grid)
    ∷ (codes "group", group)
    ∷ (codes "handle", handle)
    ∷ (codes "heading", heading)
    ∷ (codes "helptag", help_tag)
    ∷ (codes "image", image)
    ∷ (codes "incrementor", incrementor)
    ∷ (codes "layoutitem", layout_item)
    ∷ (codes "levelindicator", level_indicator)
    ∷ (codes "link", link)
    ∷ (codes "list", list)
    ∷ (codes "listbox", list_box)
    ∷ (codes "log", log)
    ∷ (codes "main", main)
    ∷ (codes "marquee", marquee)
    ∷ (codes "matte", matte)
    ∷ (codes "math", math)
    ∷ (codes "menu", menu)
    ∷ (codes "menubutton", menu_button)
    ∷ (codes "menuitem", menu_item)
    ∷ (codes "navigation", navigation)
    ∷ (codes "note", note)
    ∷ (codes "option", option)
    ∷ (codes "outline", outline)
    ∷ (codes "page", page)
    ∷ (codes "paragraph", paragraph)
    ∷ (codes "popover", popover)
    ∷ (codes "progressbar", progress_bar)
    ∷ (codes "radiobutton", radio_button)
    ∷ (codes "radiogroup", radio_group)
    ∷ (codes "region", region)
    ∷ (codes "relevanceindicator", relevance_indicator)
    ∷ (codes "row", row)
    ∷ (codes "ruler", ruler)
    ∷ (codes "rulermarker", ruler_marker)
    ∷ (codes "scrollarea", scroll_area)
    ∷ (codes "scrollbar", scroll_bar)
    ∷ (codes "search", search)
    ∷ (codes "separator", separator)
    ∷ (codes "sheet", sheet)
    ∷ (codes "slider", slider)
    ∷ (codes "splitter", splitter)
    ∷ (codes "statictext", static_text)
    ∷ (codes "status", status)
    ∷ (codes "switch", switch)
    ∷ (codes "tab", tab)
    ∷ (codes "tablist", tab_list)
    ∷ (codes "tabpanel", tab_panel)
    ∷ (codes "table", table)
    ∷ (codes "textfield", text_field)
    ∷ (codes "term", term)
    ∷ (codes "timefield", time_field)
    ∷ (codes "timer", timer)
    ∷ (codes "toolbar", toolbar)
    ∷ (codes "tooltip", tooltip)
    ∷ (codes "treeitem", tree_item)
    ∷ (codes "webarea", web_area)
    ∷ (codes "window", window)
    ∷ []

-- The first arm whose text is the scrutinee's; the last arm is `_ => Self::Unknown`.
unfoldable pub match_token : List (Text × Role) → Text → Role
unfolding text_eq
match_token [] t = unknown
match_token ((s, r) ∷ arms) t = let rest = match_token arms t in if text_eq t s then r else rest

unfoldable pub from_token : Text → Role
unfolding match_token trim to_ascii_lowercase
from_token value = match_token tokens (to_ascii_lowercase (trim value))

unfoldable pub as_str : Role → Text
as_str alert = codes "alert"
as_str alert_dialog = codes "alertdialog"
as_str application = codes "application"
as_str article = codes "article"
as_str banner = codes "banner"
as_str browser = codes "browser"
as_str button = codes "button"
as_str cell = codes "cell"
as_str checkbox = codes "checkbox"
as_str color_well = codes "colorwell"
as_str column = codes "column"
as_str combo_box = codes "combobox"
as_str complementary = codes "complementary"
as_str content_info = codes "contentinfo"
as_str date_field = codes "datefield"
as_str definition = codes "definition"
as_str dialog = codes "dialog"
as_str disclosure = codes "disclosure"
as_str dock_item = codes "dockitem"
as_str document = codes "document"
as_str drawer = codes "drawer"
as_str form = codes "form"
as_str grid = codes "grid"
as_str group = codes "group"
as_str handle = codes "handle"
as_str heading = codes "heading"
as_str help_tag = codes "helptag"
as_str image = codes "image"
as_str incrementor = codes "incrementor"
as_str layout_item = codes "layoutitem"
as_str level_indicator = codes "levelindicator"
as_str link = codes "link"
as_str list = codes "list"
as_str list_box = codes "listbox"
as_str log = codes "log"
as_str main = codes "main"
as_str marquee = codes "marquee"
as_str matte = codes "matte"
as_str math = codes "math"
as_str menu = codes "menu"
as_str menu_button = codes "menubutton"
as_str menu_item = codes "menuitem"
as_str navigation = codes "navigation"
as_str note = codes "note"
as_str option = codes "option"
as_str outline = codes "outline"
as_str page = codes "page"
as_str paragraph = codes "paragraph"
as_str popover = codes "popover"
as_str progress_bar = codes "progressbar"
as_str radio_button = codes "radiobutton"
as_str radio_group = codes "radiogroup"
as_str region = codes "region"
as_str relevance_indicator = codes "relevanceindicator"
as_str row = codes "row"
as_str ruler = codes "ruler"
as_str ruler_marker = codes "rulermarker"
as_str scroll_area = codes "scrollarea"
as_str scroll_bar = codes "scrollbar"
as_str search = codes "search"
as_str separator = codes "separator"
as_str sheet = codes "sheet"
as_str slider = codes "slider"
as_str splitter = codes "splitter"
as_str static_text = codes "statictext"
as_str status = codes "status"
as_str switch = codes "switch"
as_str tab = codes "tab"
as_str tab_list = codes "tablist"
as_str tab_panel = codes "tabpanel"
as_str table = codes "table"
as_str text_field = codes "textfield"
as_str term = codes "term"
as_str time_field = codes "timefield"
as_str timer = codes "timer"
as_str toolbar = codes "toolbar"
as_str tooltip = codes "tooltip"
as_str tree_item = codes "treeitem"
as_str web_area = codes "webarea"
as_str window = codes "window"
as_str unknown = codes "unknown"

unfoldable pub is_interactive : Role → Bool
is_interactive button = true
is_interactive cell = true
is_interactive checkbox = true
is_interactive color_well = true
is_interactive combo_box = true
is_interactive dock_item = true
is_interactive incrementor = true
is_interactive link = true
is_interactive list_box = true
is_interactive menu_button = true
is_interactive menu_item = true
is_interactive option = true
is_interactive radio_button = true
is_interactive slider = true
is_interactive switch = true
is_interactive tab = true
is_interactive text_field = true
is_interactive tree_item = true
is_interactive _ = false

unfoldable pub is_transparent_wrapper : Role → Bool
is_transparent_wrapper group = true
is_transparent_wrapper _ = false

-- `role != Role::Unknown`.
unfoldable pub is_known : Role → Bool
is_known unknown = false
is_known _ = true

unfoldable pub is_canonical : Text → Bool
unfolding text_eq from_token is_known
is_canonical value =
    let normalized = to_ascii_lowercase (trim value) in
    text_eq normalized (codes "unknown") || is_known (from_token normalized)
