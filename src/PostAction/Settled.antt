-- ===== src/PostAction/Settled.antt =====
-- The observation that the verification of an action ends with.
use agent_desktop.Prelude.{
  Bool, Bool-cases, Option, Result, arith, false, inl, inr, refl, suc, zero, ℕ, ◌*◌, ◌+◌, ◌≡◌, ◌≤◌,
}
use agent_desktop.Text.{Text}
use agent_desktop.Error.{AdapterError}
use agent_desktop.Geometry.{F64}
use agent_desktop.Actionability.Gates.{Arithmetic}
use agent_desktop.Deadline.{Deadline, remaining}
use agent_desktop.PostAction.{LiveElement}
use agent_desktop.PostAction.Execute.{ElementPort, keeps_settling, settle, settle_step}

pub record PortClock {W : Type 0} (port : ElementPort W) : Type 0 where
  pub sleeps : (n : ℕ) (w : W) → port.now w + n ≤ port.now (port.sleep n w)
  pub reads : (d : Deadline) (w : W) → port.now w ≤ port.now (port.get_live_element d w).1

module _ (arithmetic : Arithmetic) (parse_f64 : Text → Option F64) {W : Type 0}
    (port : ElementPort W) where
  shorter :
      (clock : PortClock port) (fuel : ℕ) (d settle_deadline : Deadline) (w : W)
      → remaining settle_deadline (port.now w) ≤ suc fuel * settle_step
      → remaining settle_deadline (port.now (port.get_live_element d (port.sleep settle_step w)).1)
        ≤ fuel * settle_step
  unfolding remaining
  shorter clock fuel d settle_deadline w h =
      omega (arith, h, clock.sleeps settle_step w, clock.reads d (port.sleep settle_step w))

  -- On a clock that runs, with a round of fuel for each 50 ms that are left, the settling loop ends by
  -- its own test: the last observation does not call for another read, or the time is up.
  pub settle_stops :
      (clock : PortClock port) (fuel : ℕ) (test : Result AdapterError LiveElement → Bool)
      (d settle_deadline : Deadline) (observed : Result AdapterError LiveElement) (w : W)
      → remaining settle_deadline (port.now w) ≤ fuel * settle_step
      → keeps_settling arithmetic parse_f64 port test settle_deadline
          (settle arithmetic parse_f64 port fuel test d settle_deadline observed w).0
          (settle arithmetic parse_f64 port fuel test d settle_deadline observed w).1
        ≡ false
  unfolding settle keeps_settling
  settle_stops clock zero test d settle_deadline observed w h = ground arith
  settle_stops clock (suc fuel) test d settle_deadline observed w h =
      let slept = port.sleep settle_step w in
      let again = port.get_live_element d slept in
      let less = shorter clock fuel d settle_deadline w h in
      let rest = settle_stops clock fuel test d settle_deadline again.0 again.1 less in
      elim (Bool-cases (keeps_settling arithmetic parse_f64 port test settle_deadline observed w)) [
        | inl more ↦ rw (more, settle) rest
        | inr over ↦ rw (over, settle) over
      ]

  unfoldable pub ReadAt : Deadline → Result AdapterError LiveElement × W → Type 0
  ReadAt d (observed, w) = (before : W) × (port.get_live_element d before ≡ (observed, w))

  pub settle-ReadAt :
      (fuel : ℕ) (test : Result AdapterError LiveElement → Bool) (d settle_deadline : Deadline)
      (observed : Result AdapterError LiveElement) (w : W)
      → ReadAt d (observed, w)
      → ReadAt d (settle arithmetic parse_f64 port fuel test d settle_deadline observed w)
  unfolding settle ReadAt
  settle-ReadAt zero test d settle_deadline observed w h = h
  settle-ReadAt (suc fuel) test d settle_deadline observed w h =
      let slept = port.sleep settle_step w in
      let again = port.get_live_element d slept in
      let rest = settle-ReadAt fuel test d settle_deadline again.0 again.1 (slept, refl) in
      elim (Bool-cases (keeps_settling arithmetic parse_f64 port test settle_deadline observed w)) [
        | inl more ↦ rw (more, settle) rest
        | inr over ↦ rw (over, settle) h
      ]
