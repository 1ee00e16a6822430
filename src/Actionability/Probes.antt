-- ===== src/Actionability/Probes.antt =====
-- The loop over the candidate points of crates/core/src/actionability/receives_events.rs: an occluder
-- that was seen makes the check block, unless a later point reaches the target.
use agent_desktop.Text.{Text, codes, text_eq}
use agent_desktop.Geometry.{Rect}
use agent_desktop.Error.{AdapterError}
use agent_desktop.Action.{Point, name}
use agent_desktop.Actionability.{
  ActionabilityCheck, HitTestEvidence, HitTestResult, intercepted_by, occluded_check,
  reaches_target, unknown_check, unknown_hit,
}
use agent_desktop.Prelude.{
  Bool, In, List, Option, [], arith, err, false, length, none, ok, some, true, ℕ, ◌+◌, ◌<◌, ◌∷◌,
  ◌≡◌, ◌≢◌, ◌⊎◌, Bool-cases, Result, String, ap, inl, inr, ok-injective, or_else, refl, subst, sym,
  ◌==◌, if◌then◌else◌, suc, ◌%◌, ◌^◌,
}
use agent_desktop.Actionability.Check.{
  HitTest, Probes, inconclusive, is_blocking, is_pass, probe, attempt, saw_occlusion, saw_unknown,
  with_hits, is_platform_not_supported,
}

-- No hit test of these points is intercepted, up to the first that fails.
unfoldable pub none_intercepted : HitTest → ℕ → List Point → Bool
none_intercepted hit_test n [] = true
none_intercepted hit_test n (point ∷ points) = elim (hit_test n point) [
  | ok reaches_target ↦ true
  | ok (intercepted_by role name bounds) ↦ false
  | ok unknown_hit ↦ none_intercepted hit_test (n + 1) points
  | err error ↦ true
]

-- A hit test of one of the points reached the target.
pub record Reached (hit_test : HitTest) (points : List Point) (found : Option Point) : Type 0 where
  pub number : ℕ
  pub point : Point
  pub verified : found ≡ some point
  pub candidate : In point points
  pub reaches : hit_test number point ≡ ok reaches_target

abbrev pub NotPassed : Option ActionabilityCheck → Type 0
NotPassed none = Unit {0}
NotPassed (some c) = is_pass c.status ≡ false

-- After the points: an occluder blocks.
inconclusive_blocks :
    (p : Probes)
    → NotPassed p.first_occlusion
    → p.evidence.occluded ≢ 0
    → is_blocking (inconclusive p) ≡ true
unfolding inconclusive is_blocking
inconclusive_blocks p h o = ground arith

abbrev pub HitCases : Result AdapterError HitTestResult → Type 0
HitCases o =
    (o ≡ ok reaches_target)
    ⊎ (((role : Option Text) × (name : Option Text) × (bounds : Option Rect) × (o
            ≡ ok (intercepted_by role name bounds)))
        ⊎ ((o ≡ ok unknown_hit) ⊎ ((error : AdapterError) × (o ≡ err error))))

pub hit_cases : (o : Result AdapterError HitTestResult) → HitCases o
hit_cases (ok reaches_target) = inl refl
hit_cases (ok (intercepted_by role name bounds)) = inr (inl (role, name, bounds, refl))
hit_cases (ok unknown_hit) = inr (inr (inl refl))
hit_cases (err error) = inr (inr (inr (error, refl)))

kept :
    (o : Option ActionabilityCheck) (role name : Option Text) (bounds : Option Rect)
    → NotPassed o
    → NotPassed (or_else o (some (occluded_check role name bounds)))
kept none role name bounds h = refl
kept (some c) role name bounds h = h

later :
    (hit_test : HitTest) (point : Point) (points : List Point) (found : Option Point)
    → Reached hit_test points found
    → Reached hit_test (point ∷ points) found
later hit_test point points found r = record {
  number = r.number;
  point = r.point;
  verified = r.verified;
  candidate = inr r.candidate;
  reaches = r.reaches;
}

-- A check that is not supported blocks once an occluder was seen.
unsupported_clear :
    (evidence : HitTestEvidence) (reason : String)
    → is_blocking (with_hits evidence (unknown_check (codes "receives_events") reason)) ≡ false
    → evidence.occluded ≡ 0
unfolding is_blocking text_eq
unsupported_clear evidence reason b = ground arith

inconclusive_clear :
    (p : Probes)
    → NotPassed p.first_occlusion
    → is_blocking (inconclusive p) ≡ false
    → p.evidence.occluded ≡ 0
inconclusive_clear p h b = elim (Bool-cases (p.evidence.occluded == 0)) [
  | inl z ↦ ground arith
  | inr n ↦ cc (inconclusive_blocks p h (ground arith), b)
]

wrap_small : (a b : ℕ) → a + suc b < 256 → (a + 1) % 2 ^ 8 + b < 256
wrap_small a b h = omega arith

wrap_positive : (a b : ℕ) → a + suc b < 256 → (a + 1) % 2 ^ 8 ≢ 0
wrap_positive a b h z = omega arith

-- A hit test that is not supported ends the loop.
failed_clear :
    (p : Probes) (r : ActionabilityCheck × Option Point) (supported : Bool) (error : AdapterError)
    → (if supported
        then ok (
          with_hits
              (saw_unknown (attempt p)).evidence
              (unknown_check (codes "receives_events") "hit testing is not supported"),
          none,
        )
        else err error)
      ≡ ok r
    → is_blocking r.0 ≡ false
    → (r.1 ≡ none) × (p.evidence.occluded ≡ 0)
failed_clear p r false error e b = cc
failed_clear p r true error e b =
    let same = sym (ok-injective e) in
    (
      ap (λ (x : ActionabilityCheck × Option Point). x.1) same,
      unsupported_clear (saw_unknown (attempt p)).evidence _
          (subst (λ (x : ActionabilityCheck × Option Point). is_blocking x.0 ≡ false) same b),
    )

pub probe_lem :
    (hit_test : HitTest) (n : ℕ) (points : List Point) (p : Probes)
    (r : ActionabilityCheck × Option Point)
    → NotPassed p.first_occlusion
    → p.evidence.occluded + length points < 256
    → probe hit_test n points p ≡ ok r
    → is_blocking r.0 ≡ false
    → Reached hit_test points r.1
      ⊎ ((r.1 ≡ none) × (p.evidence.occluded ≡ 0) × (none_intercepted hit_test n points ≡ true))
unfolding probe none_intercepted
probe_lem hit_test n [] p r h l e b =
    let same = ok-injective e in
    inr (
      ap (λ (x : ActionabilityCheck × Option Point). x.1) (sym same),
      inconclusive_clear p h
          (subst (λ (x : ActionabilityCheck × Option Point). is_blocking x.0 ≡ false) (sym same) b),
      refl,
    )
probe_lem hit_test n (point ∷ points) p r h l e b = elim (hit_cases (hit_test n point)) [
  | inl o ↦ inl (record {
    number = n;
    point = point;
    verified =
        ap (λ (x : ActionabilityCheck × Option Point). x.1)
          (sym (ok-injective (rw (o, probe) at e)));
    candidate = inl refl;
    reaches = o;
  })
  | inr (inl (role, label, bounds, o)) ↦
      elim (probe_lem hit_test (n + 1) points (saw_occlusion role label bounds (attempt p)) r
        (kept p.first_occlusion role label bounds h)
        (wrap_small p.evidence.occluded (length points) l) (rw (o, probe) at e) b) [
          | inl found ↦ inl (later hit_test point points r.1 found)
          | inr (v, z, c) ↦ absurd (wrap_positive p.evidence.occluded (length points) l z)
        ]
  | inr (inr (inl o)) ↦
      elim (probe_lem hit_test (n + 1) points (saw_unknown (attempt p)) r h (omega (arith, l))
        (rw (o, probe) at e) b) [
          | inl found ↦ inl (later hit_test point points r.1 found)
          | inr (v, z, c) ↦ inr (v, z, rw (o, none_intercepted) c)
        ]
  | inr (inr (inr (error, o))) ↦
      let (v, z) =
        failed_clear p r (is_platform_not_supported error.code) error (rw (o, probe) at e) b in
      inr (v, z, rw (o, none_intercepted) refl)
]
