-- ===== src/RefAction/Dispatch/AtMostOnce.antt =====
-- A ref action performs its native action at most once.
use agent_desktop.PostAction.{ActionResult}
use agent_desktop.RefAction.Dispatch.{ActionPort, and_then, plain_error, waits}
use agent_desktop.RefAction.Dispatch.Deliver.{
  execute_single_shot, execute_with_deadline, poll_platform, under_lease, wait_for_target,
}
use agent_desktop.RefAction.Dispatch.Delivered.{RunsOnce, single_shot-Once}
use agent_desktop.RefAction.Poll.Worlds.{Keeps, execute_poll_loop-keeps}
use agent_desktop.Prelude.{
  Bool-cases, Option, Result, ap, err, if◌then◌else◌, inl, inr, none, refl, some, subst, sym, ℕ,
  ◌∙◌, ◌≡◌,
}
use agent_desktop.RefAction.{ActionError, RefActionPollState, default_poll_state}
use agent_desktop.Text.{Text}
use agent_desktop.Geometry.{F64, Rect}
use agent_desktop.RefEntry.{RefEntry}
use agent_desktop.Action.{ActionRequest}
use agent_desktop.Actionability.Gates.{Arithmetic}
use agent_desktop.Deadline.{Deadline, is_expired, remaining_ms, timeout_error}
use agent_desktop.RefAction.Dispatch.Reads.{Once, Performs, and_then-performed, before-Once}

module _ (hash : Rect → ℕ) (arithmetic : Arithmetic) (parse_f64 : Text → Option F64) {W : Type 0}
    {H : Type 0} (port : ActionPort W H) (entry : RefEntry) (d : Deadline) (p : Performs port) where
  under_lease-Once :
      (fuel : ℕ) (request : ActionRequest) (w : W)
      → RunsOnce hash arithmetic parse_f64 port entry d p w
          (under_lease hash arithmetic parse_f64 port entry d fuel request w)
  unfolding under_lease Once
  under_lease-Once fuel request w =
      before-Once p (p.performed w) (port.acquire_interaction_lease d w) _ (p.leases d w)
        (λ lease held same. locked held (leased held) same)
    where
      leased : W → ActionRequest
      leased held =
          if waits request
          then record request { timeout_ms = some (remaining_ms d (port.now held)) }
          else request

      locked :
          (held : W) (q : ActionRequest)
          → p.performed held ≡ p.performed w
          → Once p (p.performed w) (
              if is_expired d (port.now held)
              then (err (plain_error timeout_error), held)
              else execute_single_shot hash arithmetic parse_f64 port entry d fuel q held)
      locked held q same = elim (Bool-cases (is_expired d (port.now held))) [
        | inl late ↦ rw late (inl same)
        | inr soon ↦ rw soon (
            subst
              (λ n.
                Once p n (execute_single_shot hash arithmetic parse_f64 port entry d fuel q held))
              same (single_shot-Once hash arithmetic parse_f64 port entry d p fuel q held))
      ]

  poll_keeps :
      (request : ActionRequest) (n : ℕ)
      → Keeps
          (poll_platform hash arithmetic parse_f64 port entry d request)
          (λ w. p.performed w ≡ n)
  unfolding poll_platform
  poll_keeps request n = record {
    sleeps = λ m w h. p.sleeps m w ∙ h;
    resolves = λ slice w h. p.resolves slice w ∙ h;
    preflights = λ handle x w h.
        and_then-performed p n (port.check_actionability handle request x w) _
          (p.checks handle request x w ∙ h) (λ report seen same. same);
  }

  waited-performed :
      (rounds : ℕ) (request : ActionRequest) (w : W)
      (result : Result ActionError RefActionPollState) (w' : W)
      → wait_for_target hash arithmetic parse_f64 port entry d rounds request w ≡ some (result, w')
      → p.performed w' ≡ p.performed w
  unfolding wait_for_target
  waited-performed rounds request w result w' e = elim (Bool-cases (waits request)) [
    | inl wait ↦
        execute_poll_loop-keeps (poll_platform hash arithmetic parse_f64 port entry d request)
          request d (λ v. p.performed v ≡ p.performed w) (poll_keeps request (p.performed w)) rounds
          default_poll_state w result w' refl (rw wait at e)
    | inr now_ ↦ sym (ap (λ o. p.performed (world_of o)) (rw now_ at e))
  ]
    where
      world_of : Option (Result ActionError RefActionPollState × W) → W
      world_of none = w
      world_of (some (r, v)) = v

  unfoldable OnceAfter : ℕ → Option (Result ActionError ActionResult × W) → Type 0
  OnceAfter n none = Unit {0}
  OnceAfter n (some x) = Once p n x

  after_wait :
      (fuel : ℕ) (request : ActionRequest) (w : W)
      (waited : Option (Result ActionError RefActionPollState × W))
      → ((result : Result ActionError RefActionPollState) (w' : W)
          → waited ≡ some (result, w')
          → p.performed w' ≡ p.performed w)
      → OnceAfter (p.performed w) (elim waited [
        | none ↦ none
        | some (result, w') ↦ some (
            and_then
              (result, w')
              (λ state ready.
                under_lease hash arithmetic parse_f64 port entry d fuel request ready))
      ])
  unfolding OnceAfter
  after_wait fuel request w none h = tt
  after_wait fuel request w (some (result, w')) h =
      before-Once p (p.performed w) (result, w') _ (h result w' refl)
        (λ state ready same.
          subst
            (λ n. Once p n (under_lease hash arithmetic parse_f64 port entry d fuel request ready))
            same (under_lease-Once fuel request ready))

  -- A ref action, with its wait, its lease, its preflights, a scroll and a verification, performs one
  -- native action where it succeeds, and none or one where it fails.
  pub execute_with_deadline-Once :
      (rounds fuel : ℕ) (request : ActionRequest) (w w' : W)
      (result : Result ActionError ActionResult)
      → execute_with_deadline hash arithmetic parse_f64 port entry d rounds fuel request w
        ≡ some (result, w')
      → Once p (p.performed w) (result, w')
  unfolding execute_with_deadline OnceAfter
  execute_with_deadline-Once rounds fuel request w w' result e =
      subst (OnceAfter (p.performed w)) e (
        after_wait fuel request w
          (wait_for_target hash arithmetic parse_f64 port entry d rounds request w)
          (waited-performed rounds request w))
