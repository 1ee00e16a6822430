-- ===== src/PostAction/Fulfilled.antt =====
-- What the verification of an action establishes, action by action: for an action that is compared
-- with what was there before, the comparison is with the element and the selection that the adapter
-- returned before the action.
use mathlib.Core.Option.{some-injective}
use agent_desktop.Prelude.{
  Bool, Bool-cases, Option-cases, Result-cases, ap, inl, inr, map_option, sym, ◌∙◌, Option, Result,
  arith, err, false, is_empty, none, not, ok, refl, some, true, ℕ, ◌||◌, ◌≡◌, [], ◌∷◌,
}
use agent_desktop.Text.{Text, codes, text_eq}
use agent_desktop.Text.Laws.{text_eq→eq}
use agent_desktop.Error.{AdapterError}
use agent_desktop.Policy.{is_headed}
use agent_desktop.Capability.{has_state}
use agent_desktop.Geometry.{F64}
use agent_desktop.Action.{
  Action, ActionRequest, check, clear, collapse, expand, set_value, toggle, type_text, uncheck,
}
use agent_desktop.Actionability.Gates.{Arithmetic}
use agent_desktop.Deadline.{Deadline}
use agent_desktop.Locator.{bool_eq}
use agent_desktop.PostAction.{
  LiveElement, checked, expected_insertion, matches_postcondition, value_matches,
}
use agent_desktop.PostAction.Execute.{
  ElementPort, expect_typed, ok_option, read_before, read_selection, typed_text,
}

map_option-eq-some :
    {A B : Type 0} (f : A → B) (o : Option A) {b : B}
    → map_option f o ≡ some b
    → (a : A) × (o ≡ some a) × (f a ≡ b)
map_option-eq-some f none h = cc h
map_option-eq-some f (some a) h = (a, refl, some-injective _ _ h)

is_empty_eq : (t : Text) → is_empty t ≡ true → t ≡ []
is_empty_eq [] h = refl
is_empty_eq (c ∷ t) h = cc h

module _ (arithmetic : Arithmetic) (parse_f64 : Text → Option F64) {W : Type 0}
    (port : ElementPort W) where
  -- The selection that typing is compared by: none where a headed action will focus the element
  -- first, else what the adapter answers, and none where it does not.
  pub data SelectionRead (request : ActionRequest) (before : LiveElement) (d : Deadline) (w : W)
      (selection : Option (ℕ × ℕ)) : Type 0 where
    unfocused :
        is_headed request.policy ≡ true
        → has_state before.state.states (codes "focused") ≡ false
        → selection ≡ none
        → SelectionRead request before d w selection
    answered :
        (not (is_headed request.policy) || has_state before.state.states (codes "focused")) ≡ true
        → (port.get_text_selection d w).0 ≡ ok selection
        → SelectionRead request before d w selection
    unanswered :
        (e : AdapterError)
        → (port.get_text_selection d w).0 ≡ err e
        → selection ≡ none
        → SelectionRead request before d w selection

  -- `w` is the world before the action.
  abbrev pub Fulfilled : ActionRequest → Action → Deadline → W → LiveElement → Type 0
  Fulfilled request (set_value expected) d w element =
      (value : Text) × (element.state.value ≡ some value)
      × (value_matches arithmetic parse_f64 element.state.role expected value ≡ true)
  Fulfilled request clear d w element = element.state.value ≡ some []
  Fulfilled request (type_text text) d w element =
      (before : LiveElement) × ((port.get_live_element d w).0 ≡ ok before)
      × (value : Text) × (before.state.value ≡ some value)
      × (selection : Option (ℕ × ℕ)) × SelectionRead request before d (port.get_live_element d w).1
          selection
      × (expected : Text) × (expected_insertion value text selection ≡ some expected)
      × (element.state.value ≡ some expected)
  Fulfilled request toggle d w element =
      (before : LiveElement) × ((port.get_live_element d w).0 ≡ ok before)
      × (was : Bool) × (checked before ≡ some was)
      × (checked element ≡ some (not was))
  Fulfilled request check d w element = checked element ≡ some true
  Fulfilled request uncheck d w element = checked element ≡ some false
  Fulfilled request expand d w element =
      (element.states_complete ≡ true) × (has_state element.state.states (codes "expanded") ≡ true)
  Fulfilled request collapse d w element =
      (element.states_complete ≡ true) × (has_state element.state.states (codes "expanded") ≡ false)
  Fulfilled request _ d w element = ⊥

  read_selection-SelectionRead :
      (request : ActionRequest) (before : LiveElement) (d : Deadline) (w : W)
      → SelectionRead request before d w
          (read_selection arithmetic parse_f64 port request before d w).0
  unfolding read_selection
  read_selection-SelectionRead request before d w =
      elim (Bool-cases
        (not (is_headed request.policy) || has_state before.state.states (codes "focused"))) [
          | inl now_read ↦ rw now_read (elim (Result-cases (port.get_text_selection d w).0) [
            | inl (selection, e) ↦ rw e (answered now_read e)
            | inr (reason, e) ↦ rw e (unanswered reason e refl)
          ])
          | inr later ↦ rw later (unfocused (ground arith) (ground arith) refl)
        ]

  toggled-Fulfilled :
      (request : ActionRequest) (d : Deadline) (w : W) (element : LiveElement)
      (live : Result AdapterError LiveElement)
      → (port.get_live_element d w).0 ≡ live
      → matches_postcondition arithmetic parse_f64 toggle (ok_option live) none element ≡ some true
      → Fulfilled request toggle d w element
  unfolding matches_postcondition
  toggled-Fulfilled request d w element (err e) read h = cc h
  toggled-Fulfilled request d w element (ok before) read h = elim (Option-cases (checked before)) [
    | inl unknown_before ↦ cc (rw (unknown_before, matches_postcondition) at h)
    | inr (was, known_before) ↦
        let (is, known_now, differs) =
          map_option-eq-some (λ is. not (bool_eq was is)) (checked element)
            (rw (known_before, matches_postcondition) at h) in
        (before, read, was, known_before, known_now ∙ ap some (ground arith))
  ]

  typed-Fulfilled :
      (request : ActionRequest) (text : Text) (d : Deadline) (w : W) (element : LiveElement)
      (live : Result AdapterError LiveElement)
      → (port.get_live_element d w).0 ≡ live
      → matches_postcondition arithmetic parse_f64
          (type_text text)
          (ok_option live)
          (expect_typed arithmetic parse_f64 port request
            (some text)
            (ok_option live)
            d
            (port.get_live_element d w).1).0
          element
        ≡ some true
      → Fulfilled request (type_text text) d w element
  unfolding matches_postcondition expect_typed
  typed-Fulfilled request text d w element (err e) read h = cc h
  typed-Fulfilled request text d w element (ok before) read h =
      elim (Option-cases before.state.value) [
        | inl empty ↦ cc (rw empty at h)
        | inr (value, shown) ↦
            let read_after = (port.get_live_element d w).1 in
            let selected = read_selection arithmetic parse_f64 port request before d read_after in
            elim (Option-cases (expected_insertion value text selected.0)) [
              | inl unknown ↦ cc (rw unknown at (rw shown at h))
              | inr (expected, inserts) ↦
                  let (now, seen, same) =
                    map_option-eq-some (text_eq expected) element.state.value
                      (rw inserts at (rw shown at h)) in
                  (
                    before,
                    read,
                    value,
                    shown,
                    selected.0,
                    read_selection-SelectionRead request before d read_after,
                    expected,
                    inserts,
                    seen ∙ ap some (sym (text_eq→eq expected now same)),
                  )
            ]
      ]

  -- A postcondition that holds, by what is read before the action, is the one of the action.
  pub postcondition-Fulfilled :
      (request : ActionRequest) (action : Action) (d : Deadline) (w : W) (element : LiveElement)
      → matches_postcondition arithmetic parse_f64 action
          (read_before arithmetic parse_f64 port action d w).0
          (expect_typed arithmetic parse_f64 port request
            (typed_text action)
            (read_before arithmetic parse_f64 port action d w).0
            d
            (read_before arithmetic parse_f64 port action d w).1).0
          element
        ≡ some true
      → Fulfilled request action d w element
  unfolding matches_postcondition read_before expect_typed
  postcondition-Fulfilled request clear d w element h =
      let (value, shown, e) = map_option-eq-some is_empty element.state.value h in
      shown ∙ ap some (is_empty_eq value e)
  postcondition-Fulfilled request check d w element h = h
  postcondition-Fulfilled request uncheck d w element h =
      let (is, known, e) = map_option-eq-some not (checked element) h in
      known ∙ ap some (ground arith)
  postcondition-Fulfilled request expand d w element h = (ground arith, ground arith)
  postcondition-Fulfilled request collapse d w element h = (ground arith, ground arith)
  postcondition-Fulfilled request (set_value expected) d w element h =
      map_option-eq-some (value_matches arithmetic parse_f64 element.state.role expected)
        element.state.value h
  postcondition-Fulfilled request toggle d w element h =
      toggled-Fulfilled request d w element (port.get_live_element d w).0 refl h
  postcondition-Fulfilled request (type_text text) d w element h =
      typed-Fulfilled request text d w element (port.get_live_element d w).0 refl h
  postcondition-Fulfilled request _ d w element h = cc h
