-- ===== src/RefAction/Dispatch/Delivered.antt =====
-- A dispatch performs its native action at most once.
use agent_desktop.PostAction.{ActionResult}
use agent_desktop.Policy.{requires_focus}
use agent_desktop.RefAction.Dispatch.{
  ActionPort, after_scroll, map_error, plain_result, known_process_instance,
  trace_error_after_delivery,
}
use agent_desktop.RefAction.Dispatch.Target.{or_scroll, prepare, stable_preflight}
use agent_desktop.RefAction.Dispatch.Deliver.{
  deliver, deliverable, dispatch_resolved, dispatch_to, execute_single_shot,
}
use agent_desktop.Prelude.{
  Bool-cases, Option, Result, ap, err, inl, inr, none, ok, refl, some, subst, ℕ, ◌+◌, ◌∙◌, ◌≡◌,
}
use agent_desktop.RefAction.{
  ActionError, mark_pre_dispatch_resolution_failure, should_scroll_after_preflight,
}
use agent_desktop.Text.{Text}
use agent_desktop.Geometry.{F64, Rect}
use agent_desktop.RefEntry.{RefEntry}
use agent_desktop.Action.{ActionRequest, headed_requirement}
use agent_desktop.Actionability.Gates.{Arithmetic}
use agent_desktop.Actionability.Check.{ActionabilityReport}
use agent_desktop.Deadline.{Deadline}
use agent_desktop.PostAction.Execute.{execute_verified_action}
use agent_desktop.PostAction.Once.{execute_verified_action-once}
use agent_desktop.RefAction.Dispatch.Reads.{
  Once, Performs, after-Once, and_then-performed, before-Once, element_counts, map_error-performed,
  stable_preflight-performed,
}

module _ (hash : Rect → ℕ) (arithmetic : Arithmetic) (parse_f64 : Text → Option F64) {W : Type 0}
    {H : Type 0} (port : ActionPort W H) (entry : RefEntry) (d : Deadline) (p : Performs port) where
  or_scroll-performed :
      (fuel : ℕ) (request : ActionRequest) (handle : H)
      (first : Result ActionError ActionabilityReport × W) (n : ℕ)
      → p.performed first.1 ≡ n
      → p.performed (or_scroll hash arithmetic parse_f64 port entry d fuel request handle first).1
        ≡ n
  unfolding or_scroll
  or_scroll-performed fuel request handle (ok report, seen) n h = h
  or_scroll-performed fuel request handle (err e, seen) n h =
      let scroll =
        and_then-performed p n (port.scroll_into_view handle seen) _ (p.scrolls handle seen ∙ h)
          (λ u moved at_moved.
            and_then-performed p n (map_error after_scroll (port.resolve_element_strict d moved)) _
              (map_error-performed p after_scroll (port.resolve_element_strict d moved)
                ∙ p.resolves d moved
                ∙ at_moved)
              (λ again found at_found.
                and_then-performed p n
                  (map_error after_scroll (
                    stable_preflight hash arithmetic parse_f64 port entry d fuel again request
                      found))
                  _
                  (map_error-performed p after_scroll (
                      stable_preflight hash arithmetic parse_f64 port entry d fuel again request
                        found)
                    ∙ stable_preflight-performed hash arithmetic parse_f64 port entry d p fuel again
                        request found
                    ∙ at_found)
                  (λ report settled same. same))) in
      elim (Bool-cases (should_scroll_after_preflight request e)) [
        | inl moves ↦ rw moves scroll
        | inr stays ↦ rw stays h
      ]

  prepare-performed :
      (fuel : ℕ) (request : ActionRequest) (w : W)
      → p.performed (prepare hash arithmetic parse_f64 port entry d fuel request w).1
        ≡ p.performed w
  unfolding prepare
  prepare-performed fuel request w =
      and_then-performed p (p.performed w)
        (map_error mark_pre_dispatch_resolution_failure (port.resolve_element_strict d w)) _
        (map_error-performed p mark_pre_dispatch_resolution_failure
            (port.resolve_element_strict d w)
          ∙ p.resolves d w)
        (λ handle resolved same.
          or_scroll-performed fuel request handle
            (stable_preflight hash arithmetic parse_f64 port entry d fuel handle request resolved)
            (p.performed w)
            (stable_preflight-performed hash arithmetic parse_f64 port entry d p fuel handle request
                resolved
              ∙ same))

  deliver-Once :
      (request : ActionRequest) (instance_ : Text) (target : H × ActionabilityReport) (w : W)
      → Once p
          (p.performed w)
          (deliver hash arithmetic parse_f64 port entry d request instance_ target w)
  unfolding deliver Once
  deliver-Once request instance_ (handle, report) w =
      before-Once p (p.performed w) (port.trace_start w) _ (p.starts w) (λ u traced same.
        let asked = deliverable hash arithmetic parse_f64 port entry d request instance_ report in
        let executed =
          execute_verified_action arithmetic parse_f64 (port.element handle) asked d traced in
        let once =
          execute_verified_action-once arithmetic parse_f64 (port.element handle)
            (element_counts p handle) asked d traced in
        after-Once p (p.performed w) (plain_result executed.0, executed.1) _
          (once ∙ ap (λ n. n + 1) same)
          (λ done delivered more.
            after-Once p (p.performed w)
              (map_error trace_error_after_delivery (port.trace_done delivered)) _
              (map_error-performed p trace_error_after_delivery (port.trace_done delivered)
                ∙ p.ends delivered
                ∙ more)
              (λ v ended last_. last_)))

  -- The result of a run, from a world `w`.
  abbrev pub RunsOnce : W → Result ActionError ActionResult × W → Type 0
  RunsOnce w x = Once p (p.performed w) x

  dispatch_to-Once :
      (fuel : ℕ) (request : ActionRequest) (instance_ : Option Text) (w : W)
      → RunsOnce w (dispatch_to hash arithmetic parse_f64 port entry d fuel request instance_ w)
  unfolding Once
  dispatch_to-Once fuel request none w = inl refl
  dispatch_to-Once fuel request (some instance_) w =
      before-Once p (p.performed w) (prepare hash arithmetic parse_f64 port entry d fuel request w)
        (deliver hash arithmetic parse_f64 port entry d request instance_)
        (prepare-performed fuel request w)
        (λ target ready same.
          subst
            (λ n.
              Once p n
                (deliver hash arithmetic parse_f64 port entry d request instance_ target ready))
            same (deliver-Once request instance_ target ready))

  pub single_shot-Once :
      (fuel : ℕ) (request : ActionRequest) (w : W)
      → RunsOnce w (execute_single_shot hash arithmetic parse_f64 port entry d fuel request w)
  unfolding execute_single_shot dispatch_resolved
  single_shot-Once fuel request w =
      let run = λ (v : W). dispatch_to-Once fuel request (known_process_instance entry) v in
      let focused =
        before-Once p (p.performed w) (port.focus_entry_window w)
          (λ u v.
            dispatch_to hash arithmetic parse_f64 port entry d fuel request
              (known_process_instance entry) v)
          (p.focuses w)
          (λ u v same.
            subst
              (λ n. Once p n (
                dispatch_to hash arithmetic parse_f64 port entry d fuel request
                  (known_process_instance entry) v))
              same (run v)) in
      elim (Bool-cases (requires_focus (headed_requirement request))) [
        | inl focus ↦ rw focus focused
        | inr plain ↦ rw plain (run w)
      ]
