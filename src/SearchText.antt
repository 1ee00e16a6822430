-- ===== src/SearchText.antt =====
-- crates/core/src/search_text.rs: the normal form of searched text. `char::to_lowercase` of the
-- standard library, which the source uses beyond ASCII, is the parameter `to_lowercase`.
use agent_desktop.Prelude.{
  Bool, [], any, false, flatten_options, if◌then◌else◌, is_empty, leb, ltb, not, true, ℕ, ◌&&◌,
  ◌++◌, ◌==◌, ◌||◌, ◌∷◌,
}
use agent_desktop.Text.{Text, ascii_lower, contains_text, is_whitespace}
use agent_desktop.Tree.{NodeData}

unfoldable pub is_bidirectional_control : ℕ → Bool
is_bidirectional_control c =
    c == 0x061c
    || (c == 0x200e
        || (c == 0x200f || ((leb 0x202a c && leb c 0x202e) || (leb 0x2066 c && leb c 0x2069))))

module _ (to_lowercase : ℕ → Text) where
  abbrev pub lower : ℕ → Text
  lower c = if ltb c 0x80 then ascii_lower c ∷ [] else to_lowercase c

  abbrev pub space_if : Bool → Text
  space_if true = 0x20 ∷ []
  space_if false = []

  -- The loop of `normalize`: `started` is `!normalized.is_empty()`, and the characters are given in
  -- the order in which the source pushes them.
  unfoldable pub normalize_from : Bool → Bool → Text → Text
  normalize_from started pending_space [] = []
  normalize_from started pending_space (c ∷ cs) =
      let skipped = normalize_from started pending_space cs in
      let spaced = normalize_from started started cs in
      let pushed = space_if pending_space ++ lower c in
      let kept = normalize_from (started || not (is_empty pushed)) false cs in
      if is_bidirectional_control c
      then skipped
      else if is_whitespace c
      then spaced
      else pushed ++ kept

  unfoldable pub normalize : Text → Text
  normalize value = normalize_from false false value

  unfoldable pub contains : Text → Text → Bool
  contains haystack normalized_needle =
      is_empty normalized_needle || contains_text normalized_needle (normalize haystack)

  unfoldable pub node_contains : NodeData → Text → Bool
  node_contains d needle =
      any (λ text. contains text needle)
        (flatten_options (d.identity.name ∷ d.identity.value ∷ d.identity.description ∷ []))
