-- ===== src/RefAction/Dispatch/Reads.antt =====
-- The reads before the dispatch perform no native action.
use agent_desktop.RefAction.{AdapterError, ActionError, only_stability_pending}
use agent_desktop.Prelude.{
  Bool, Bool-cases, Option, Result, err, false, inl, inr, not, ok, refl, suc, true, zero, ℕ, ◌+◌,
  ◌-◌, ◌||◌, ◌∙◌, ◌≡◌, ◌⊎◌,
}
use agent_desktop.Actionability.Gates.{Arithmetic, StabilitySampler, new_sampler, observe}
use agent_desktop.Text.{Text}
use agent_desktop.Geometry.{F64, Rect}
use agent_desktop.RefEntry.{RefEntry}
use agent_desktop.Action.{ActionRequest}
use agent_desktop.Actionability.{StabilityExpectation, is_semantic, requirements_for}
use agent_desktop.Deadline.{Deadline, remaining_slice}
use agent_desktop.PostAction.Once.{Counts}
use agent_desktop.RefAction.Dispatch.{ActionPort, and_then, map_error, permissive, sample_interval}
use agent_desktop.RefAction.Dispatch.Target.{
  after_sample, first_check, pause_for, sample_until_stable, stable_preflight, strict_of,
}
use agent_desktop.Actionability.Check.{ActionabilityReport}

-- `performed` counts the native actions. Only `execute_action` performs one, and only one.
pub record Performs {W H : Type 0} (port : ActionPort W H) : Type 0 where
  pub performed : W → ℕ
  pub sleeps : (n : ℕ) (w : W) → performed (port.sleep n w) ≡ performed w
  pub resolves :
      (d : Deadline) (w : W) → performed (port.resolve_element_strict d w).1 ≡ performed w
  pub checks :
      (handle : H) (request : ActionRequest) (x : StabilityExpectation) (w : W)
      → performed (port.check_actionability handle request x w).1 ≡ performed w
  pub reads :
      (handle : H) (d : Deadline) (w : W)
      → performed (port.get_element_bounds handle d w).1 ≡ performed w
  pub scrolls : (handle : H) (w : W) → performed (port.scroll_into_view handle w).1 ≡ performed w
  pub leases :
      (d : Deadline) (w : W) → performed (port.acquire_interaction_lease d w).1 ≡ performed w
  pub focuses : (w : W) → performed (port.focus_entry_window w).1 ≡ performed w
  pub starts : (w : W) → performed (port.trace_start w).1 ≡ performed w
  pub ends : (w : W) → performed (port.trace_done w).1 ≡ performed w
  pub element_sleeps :
      (handle : H) (n : ℕ) (w : W) → performed ((port.element handle).sleep n w) ≡ performed w
  pub element_reads :
      (handle : H) (d : Deadline) (w : W)
      → performed ((port.element handle).get_live_element d w).1 ≡ performed w
  pub element_selects :
      (handle : H) (d : Deadline) (w : W)
      → performed ((port.element handle).get_text_selection d w).1 ≡ performed w
  pub element_executes :
      (handle : H) (request : ActionRequest) (w : W)
      → performed ((port.element handle).execute_action request w).1 ≡ performed w + 1

module _ {W H : Type 0} {port : ActionPort W H} (p : Performs port) where
  pub map_error-performed :
      {A : Type 0} (f : ActionError → ActionError) (x : Result ActionError A × W)
      → p.performed (map_error f x).1 ≡ p.performed x.1
  map_error-performed f (ok a, w) = refl
  map_error-performed f (err e, w) = refl

  pub and_then-performed :
      {A B : Type 0} (n : ℕ) (x : Result ActionError A × W)
      (next : A → W → Result ActionError B × W)
      → p.performed x.1 ≡ n
      → ((a : A) (w : W) → p.performed w ≡ n → p.performed (next a w).1 ≡ n)
      → p.performed (and_then x next).1 ≡ n
  and_then-performed n (ok a, w) next h k = k a w h
  and_then-performed n (err e, w) next h k = h

  -- From `n` actions performed: one more where there is a result, at most one more with an error.
  unfoldable pub Once : {A : Type 0} → ℕ → Result ActionError A × W → Type 0
  Once n (ok a, w) = p.performed w ≡ n + 1
  Once n (err e, w) = (p.performed w ≡ n) ⊎ (p.performed w ≡ n + 1)

  pub before-Once :
      {A B : Type 0} (n : ℕ) (x : Result ActionError A × W)
      (next : A → W → Result ActionError B × W)
      → p.performed x.1 ≡ n
      → ((a : A) (w : W) → p.performed w ≡ n → Once n (next a w))
      → Once n (and_then x next)
  unfolding Once
  before-Once n (ok a, w) next h k = k a w h
  before-Once n (err e, w) next h k = inl h

  pub after-Once :
      {A B : Type 0} (n : ℕ) (x : Result ActionError A × W)
      (next : A → W → Result ActionError B × W)
      → p.performed x.1 ≡ n + 1
      → ((a : A) (w : W) → p.performed w ≡ n + 1 → Once n (next a w))
      → Once n (and_then x next)
  unfolding Once
  after-Once n (ok a, w) next h k = k a w h
  after-Once n (err e, w) next h k = inr h

  abbrev pub element_counts : (handle : H) → Counts (port.element handle)
  element_counts handle = record {
    performed = p.performed;
    sleeps = p.element_sleeps handle;
    reads = p.element_reads handle;
    selects = p.element_selects handle;
    executes = p.element_executes handle;
  }

module _ (hash : Rect → ℕ) (arithmetic : Arithmetic) (parse_f64 : Text → Option F64) {W : Type 0}
    {H : Type 0} (port : ActionPort W H) (entry : RefEntry) (d : Deadline) (p : Performs port) where
  pause-performed :
      (slice : Result AdapterError ℕ) (w : W)
      → p.performed (pause_for hash arithmetic parse_f64 port entry d slice w).1 ≡ p.performed w
  pause-performed (ok sleep) w = p.sleeps sleep w
  pause-performed (err e) w = refl

  after_sample-performed :
      (rest : StabilitySampler hash arithmetic → W → Result ActionError ActionabilityReport × W)
      (handle : H) (request : ActionRequest) (elapsed : ℕ) (stable : Bool)
      (s : StabilitySampler hash arithmetic) (w : W)
      → ((s' : StabilitySampler hash arithmetic) (w' : W)
          → p.performed (rest s' w').1 ≡ p.performed w')
      → p.performed
          (after_sample hash arithmetic parse_f64 port entry d rest handle request elapsed stable s
            w).1
        ≡ p.performed w
  after_sample-performed rest handle request elapsed true s w later =
      p.checks handle request (strict_of hash arithmetic parse_f64 port entry d s elapsed) w
  after_sample-performed rest handle request elapsed false s w later =
      and_then-performed p (p.performed w)
        (pause_for hash arithmetic parse_f64 port entry d
          (remaining_slice d sample_interval (port.now w)) w)
        (λ u slept. rest s slept)
        (pause-performed (remaining_slice d sample_interval (port.now w)) w)
        (λ u slept same. later s slept ∙ same)

  sample-performed :
      (fuel : ℕ) (handle : H) (request : ActionRequest) (started : ℕ)
      (s : StabilitySampler hash arithmetic) (w : W)
      → p.performed
          (sample_until_stable hash arithmetic parse_f64 port entry d fuel handle request started s
            w).1
        ≡ p.performed w
  unfolding sample_until_stable
  sample-performed zero handle request started s w = refl
  sample-performed (suc fuel) handle request started s w =
      let later = sample-performed fuel handle request started in
      and_then-performed p (p.performed w) (port.get_element_bounds handle d w)
        (λ bounds read.
          after_sample hash arithmetic parse_f64 port entry d
            (sample_until_stable hash arithmetic parse_f64 port entry d fuel handle request started)
            handle request (port.now read - started)
            (observe hash arithmetic bounds (port.now read - started) s).0
            (observe hash arithmetic bounds (port.now read - started) s).1 read)
        (p.reads handle d w)
        (λ bounds read same.
          after_sample-performed
            (sample_until_stable hash arithmetic parse_f64 port entry d fuel handle request started)
            handle request (port.now read - started)
            (observe hash arithmetic bounds (port.now read - started) s).0
            (observe hash arithmetic bounds (port.now read - started) s).1 read later
          ∙ same)

  first_check-performed :
      (request : ActionRequest) (first sampled : Result ActionError ActionabilityReport × W) (n : ℕ)
      → p.performed first.1 ≡ n
      → p.performed sampled.1 ≡ n
      → p.performed (first_check hash arithmetic parse_f64 port entry d request first sampled).1 ≡ n
  unfolding first_check
  first_check-performed request (ok report, seen) sampled n h k =
      elim (Bool-cases
        (not (requirements_for request.action).stable || is_semantic report.pointer_delivery)) [
          | inl done ↦ rw done h
          | inr more ↦ rw more k
        ]
  first_check-performed request (err e, seen) sampled n h k =
      elim (Bool-cases (only_stability_pending e)) [ inl more ↦ rw more k | inr done ↦ rw done h ]

  pub stable_preflight-performed :
      (fuel : ℕ) (handle : H) (request : ActionRequest) (w : W)
      → p.performed
          (stable_preflight hash arithmetic parse_f64 port entry d fuel handle request w).1
        ≡ p.performed w
  unfolding stable_preflight
  stable_preflight-performed fuel handle request w =
      let checked =
        port.check_actionability handle request (permissive entry.geometry.bounds_hash) w in
      let seen = p.checks handle request (permissive entry.geometry.bounds_hash) w in
      first_check-performed request checked
        (sample_until_stable hash arithmetic parse_f64 port entry d fuel handle request
          (port.now checked.1) (new_sampler hash arithmetic) checked.1)
        (p.performed w) seen
        (sample-performed fuel handle request (port.now checked.1) (new_sampler hash arithmetic)
            checked.1
          ∙ seen)
