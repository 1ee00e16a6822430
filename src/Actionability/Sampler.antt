-- ===== src/Actionability/Sampler.antt =====
-- crates/core/src/actionability/stability_sampler.rs: what the sampler counts.
use mathlib.Core.Path.{ap₂}
use agent_desktop.Prelude.{
  Bool, Bool-cases, List, Option, [], arith, if◌then◌else◌, inl, inr, is_some_and, length, none,
  refl, some, ℕ, ◌+◌, ◌<◌, ◌^◌, ◌∷◌, ◌≡◌, ◌≤◌, ap, leb, ◌%◌, ◌&&◌, ◌-◌, ◌∙◌,
}
use agent_desktop.Actionability.Gates.{
  Arithmetic, StabilitySampler, geometry_matches, new_sampler, observe,
}
use agent_desktop.Geometry.{Rect}

module _ (hash : Rect → ℕ) (arithmetic : Arithmetic) where
  -- A history of observations, the latest first: the bounds that were read, and when.
  abbrev pub History : Type 0
  History = List (Option Rect × ℕ)

  unfoldable pub replay : History → StabilitySampler hash arithmetic
  replay [] = new_sampler hash arithmetic
  replay ((bounds, elapsed) ∷ h) = (observe hash arithmetic bounds elapsed (replay h)).1

  abbrev pub latest : History → Option Rect
  latest [] = none
  latest ((bounds, elapsed) ∷ h) = bounds

  abbrev pub continues : Rect → History → Bool
  continues bounds h =
      is_some_and (latest h) (λ previous. geometry_matches hash arithmetic previous bounds)

  -- The latest observations that follow each other without a gap or a move: how many they are, and
  -- when the first of them was made.
  unfoldable pub run_length : History → ℕ
  run_length [] = 0
  run_length ((none, elapsed) ∷ h) = 0
  run_length ((some bounds, elapsed) ∷ h) =
      let before = run_length h in if continues bounds h then before + 1 else 1

  unfoldable pub run_start : History → ℕ
  run_start [] = 0
  run_start ((none, elapsed) ∷ h) = elapsed
  run_start ((some bounds, elapsed) ∷ h) =
      let before = run_start h in if continues bounds h then before else elapsed

  run_length-le : (h : History) → run_length h ≤ length h
  unfolding run_length
  run_length-le [] = omega arith
  run_length-le ((none, elapsed) ∷ h) = omega arith
  run_length-le ((some bounds, elapsed) ∷ h) = let ih = run_length-le h in ground arith

  replay_previous : (h : History) → (replay h).previous ≡ latest h
  unfolding replay observe
  replay_previous [] = refl
  replay_previous ((none, elapsed) ∷ h) = refl
  replay_previous ((some bounds, elapsed) ∷ h) = refl

  no_wrap : (a : ℕ) → a + 1 < 2 ^ 32 → (a + 1) % 2 ^ 32 ≡ a + 1
  no_wrap a h = omega arith

  -- The report is about the state that is left.
  observed_last :
      (h : History) (bounds : Rect) (elapsed : ℕ)
      → (observe hash arithmetic (some bounds) elapsed (replay h)).0 ≡ (
          leb 3 (replay ((some bounds, elapsed) ∷ h)).consecutive
          && leb 34000000 (elapsed - (replay ((some bounds, elapsed) ∷ h)).stable_since))
  unfolding replay observe
  observed_last h bounds elapsed = refl

  -- Over fewer than 2^32 observations the sampler has counted the run and knows its start.
  replay_run :
      (h : History)
      → length h < 2 ^ 32
      → ((replay h).consecutive ≡ run_length h) × ((replay h).stable_since ≡ run_start h)
  unfolding replay observe run_length run_start
  replay_run [] l = (refl, refl)
  replay_run ((none, elapsed) ∷ h) l = (refl, refl)
  replay_run ((some bounds, elapsed) ∷ h) l =
      let (n, s) = replay_run h (omega (arith, l)) in
      let p = replay_previous h in
      let small = run_length-le h in
      let m : is_some_and (replay h).previous
            (λ previous. geometry_matches hash arithmetic previous bounds)
          ≡ continues bounds h =
        ap (λ o. is_some_and o (λ previous. geometry_matches hash arithmetic previous bounds)) p in
      elim (Bool-cases (continues bounds h)) [
        | inl y ↦ rw (m, n, s, y) (no_wrap (run_length h) (omega (arith, l, small)), refl)
        | inr k ↦ rw (m, k) (refl, refl)
      ]

  -- Bounds are reported stable exactly when, with them, at least three observations in a row have
  -- been read that match their predecessors, and the first of these is at least 34 ms old (over
  -- fewer than 2^32 observations since the sampler was made).
  pub observe_lem :
      (h : History) (bounds : Option Rect) (elapsed : ℕ)
      → length h + 1 < 2 ^ 32
      → (observe hash arithmetic bounds elapsed (replay h)).0 ≡ (
          leb 3 (run_length ((bounds, elapsed) ∷ h))
          && leb 34000000 (elapsed - run_start ((bounds, elapsed) ∷ h)))
  unfolding observe run_length
  observe_lem h none elapsed l = refl
  observe_lem h (some bounds) elapsed l =
      let (n, s) = replay_run ((some bounds, elapsed) ∷ h) (omega (arith, l)) in
      let reported = observed_last h bounds elapsed in
      reported ∙ ap₂ (λ (c t : ℕ). leb 3 c && leb 34000000 (elapsed - t)) n s
