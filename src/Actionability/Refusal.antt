-- ===== src/Actionability/Refusal.antt =====
-- What a refusal says of the delivery.
use agent_desktop.Action.{ActionRequest, Point, requires_hit_test}
use agent_desktop.Geometry.{Rect}
use agent_desktop.Actionability.Gates.{Arithmetic}
use agent_desktop.Prelude.{
  Bool, List, Option, Result, [], arith, err, false, if◌then◌else◌, inl, inr, none, ok, some, true,
  ℕ, ◌+◌, ◌>>=◌, ◌∙◌, ◌∷◌, ◌≡◌, ◌⊎◌, Bool-cases, any, not, Option-cases,
}
use agent_desktop.Error.{AdapterError, retry, safe}
use agent_desktop.Actionability.{
  ActionabilityEvidence, HitTestResult, ActionabilityCheck, PointerDelivery, StabilityExpectation,
  is_physical, pointer_delivery_of, requirements_for,
}
use agent_desktop.Actionability.Check.{
  ActionabilityReport, HitTest, Probes, finish, is_platform_not_supported, probe, candidate_points,
  check_with_stability, gate_checks, hit_checks, is_pass, no_probes, receives_events_check,
}
use agent_desktop.Actionability.Probes.{hit_cases}

-- The error is that of a hit test.
abbrev pub FromHitTest : Option HitTest → AdapterError → Type 0
FromHitTest none e = ⊥
FromHitTest (some hit_test) e = (n : ℕ) × (p : Point) × (hit_test n p ≡ err e)

probe-err :
    (hit_test : HitTest) (n : ℕ) (points : List Point) (p : Probes) (e : AdapterError)
    → probe hit_test n points p ≡ err e
    → FromHitTest (some hit_test) e
unfolding probe
probe-err hit_test n [] p e h = cc
probe-err hit_test n (point ∷ points) p e h = elim (hit_cases (hit_test n point)) [
  | inl o ↦ cc (rw (o, probe) at h)
  | inr (inl (role, label, bounds, o)) ↦ probe-err hit_test (n + 1) points _ e (rw (o, probe) at h)
  | inr (inr (inl o)) ↦ probe-err hit_test (n + 1) points _ e (rw (o, probe) at h)
  | inr (inr (inr (error, o))) ↦ (
    n,
    point,
    o ∙ unsupported (is_platform_not_supported error.code) error _ (rw (o, probe) at h),
  )
]
  where
    unsupported :
        (b : Bool) (error : AdapterError) (r : ActionabilityCheck × Option Point)
        → (if b then ok r else err error) ≡ err e
        → ◌≡◌ {A = Result AdapterError HitTestResult} (err error) (err e)
    unsupported true error r q = cc
    unsupported false error r q = ground arith

finish-err :
    (evidence : ActionabilityEvidence) (report : ActionabilityReport) (e : AdapterError)
    → finish evidence report ≡ err e
    → retry e.disposition ≡ safe
unfolding finish retry
finish-err evidence report e h = ground arith

pub >>=-err :
    {A B : Type 0} (x : Result AdapterError A) (f : A → Result AdapterError B) (e : AdapterError)
    → (x >>= f) ≡ err e
    → (x ≡ err e) ⊎ ((a : A) × (f a ≡ err e))
>>=-err (ok a) f e h = inr (a, h)
>>=-err (err d) f e h = inl (ground arith)

module _ (hash : Rect → ℕ) (arithmetic : Arithmetic) where
  receives_events_check-err :
      (bounds : Option Rect) (hit_test : HitTest) (request : ActionRequest) (e : AdapterError)
      → receives_events_check hash arithmetic bounds hit_test request ≡ err e
      → FromHitTest (some hit_test) e
  unfolding receives_events_check
  receives_events_check-err bounds hit_test request e q =
      elim (Bool-cases (requires_hit_test request.action)) [
        | inr n ↦ cc (rw n at q)
        | inl y ↦ elim (Option-cases bounds) [
          | inl k ↦ cc (rw (y, k) at q)
          | inr (b, s) ↦
              probe-err hit_test 0 (candidate_points hash arithmetic b) no_probes e (rw (y, s) at q)
        ]
      ]

  hit_checks-err :
      (evidence : ActionabilityEvidence) (request : ActionRequest) (hit_test : Option HitTest)
      (delivery : PointerDelivery) (e : AdapterError)
      → hit_checks hash arithmetic evidence request hit_test delivery ≡ err e
      → FromHitTest hit_test e
  unfolding hit_checks
  hit_checks-err evidence request none delivery e h = elim (Bool-cases (is_physical delivery)) [
    | inr n ↦ cc (rw n at h)
    | inl y ↦ cc (rw y at h)
  ]
  hit_checks-err evidence request (some t) delivery e h = elim (Bool-cases (is_physical delivery)) [
    | inr n ↦ cc (rw n at h)
    | inl y ↦
        elim (>>=-err (receives_events_check hash arithmetic evidence.bounds t request) _ e
          (rw y at h)) [
            | inl r ↦ receives_events_check-err evidence.bounds t request e r
            | inr (c, r) ↦ cc r
          ]
  ]

  -- A refusal is the error of a hit test, or says that nothing was delivered, so that a retry is
  -- safe.
  pub refused_is_safe :
      (x : StabilityExpectation) (evidence : ActionabilityEvidence) (request : ActionRequest)
      (hit_test : Option HitTest) (e : AdapterError)
      → check_with_stability hash arithmetic x evidence request hit_test ≡ err e
      → FromHitTest hit_test e ⊎ (retry e.disposition ≡ safe)
  unfolding check_with_stability
  refused_is_safe x evidence request hit_test e h =
      elim (Bool-cases (any (λ c. not (is_pass c.status)) checks)) [
        | inl bad ↦ inr (finish-err evidence _ e (rw bad at h))
        | inr good ↦
            elim (>>=-err (hit_checks hash arithmetic evidence request hit_test delivery) _ e
              (rw good at h)) [
                | inl r ↦ inl (hit_checks-err evidence request hit_test delivery e r)
                | inr (p, r) ↦ inr (finish-err evidence _ e r)
              ]
      ]
    where
      delivery : PointerDelivery
      delivery =
          pointer_delivery_of (requirements_for request.action) request.action
            evidence.available_actions request.policy

      checks : List ActionabilityCheck
      checks = gate_checks hash arithmetic x evidence request delivery
