-- ===== src/RefAction/Preflight/Quiet.antt =====
-- The errors of the preflight: nothing has been delivered, unless a trace could not be written.
use agent_desktop.Prelude.{
  any, Bool-cases, Option, Result, Result-cases, ap, arith, err, inl, inr, not, ok, refl, some,
  subst, sym, ℕ, ◌>>=◌, ◌||◌, ◌∙◌, ◌≡◌, ◌⊎◌,
}
use agent_desktop.Text.{Text, codes, text_eq}
use agent_desktop.Error.{AdapterError, DeliverySemantics, retry, safe}
use agent_desktop.Geometry.{F64, Rect}
use agent_desktop.RefEntry.{RefEntry}
use agent_desktop.RefIdentity.{
  IdentityMatch, has_meaningful_identity, other_identity, same_identity, unknown_identity,
}
use agent_desktop.Action.{ActionRequest, Point}
use agent_desktop.Actionability.{
  pointer_delivery_of, requirements_for, ActionabilityEvidence, StabilityExpectation,
}
use agent_desktop.Actionability.Gates.{Arithmetic}
use agent_desktop.Actionability.Check.{
  finish, gate_checks, hit_checks, is_pass, ActionabilityReport, HitTest, check_with_stability,
}
use agent_desktop.Actionability.Refusal.{>>=-err, refused_is_safe}
use agent_desktop.Deadline.{Deadline}
use agent_desktop.LiveCheck.{
  check_live_with_stability, identity_verdict, is_unsupported, map_err, observe_live,
  pre_dispatch_error, stale_live_element, validate_live_identity,
}
use agent_desktop.PostAction.{LiveElement}
use agent_desktop.RefAction.{ActionError, Details, pre_dispatch}
use agent_desktop.RefAction.Preflight.{
  LiveAdapter, reported, checked_after_start, preflight_resolved, traced_outcome, without_details,
}

-- An error that leaves the delivery open or says that there was none.
abbrev pub Quiet : AdapterError → Type 0
Quiet e = pre_dispatch e.disposition ≡ DeliverySemantics.not_delivered

abbrev pub NotDelivered : AdapterError → Type 0
NotDelivered e = e.disposition ≡ DeliverySemantics.not_delivered

-- The adapter's reads report no delivery: they may leave it open, or say that there was none.
pub record IsReadOnly {W H : Type 0} (adapter : LiveAdapter W H) : Type 0 where
  pub resolve_quiet :
      (d : Deadline) (w : W) (e : ActionError)
      → (adapter.resolve_element_strict d w).0 ≡ err e
      → Quiet e.error
  pub live_quiet :
      (handle : H) (d : Deadline) (w : W) (e : ActionError)
      → (adapter.get_live_element handle d w).0 ≡ err e
      → Quiet e.error
  pub hit_quiet :
      (handle : H) (d : Deadline) (w : W) (n : ℕ) (p : Point) (e : AdapterError)
      → adapter.hit_test handle d w n p ≡ err e
      → Quiet e

pub err-injective : {E A : Type 0} {a b : E} → ◌≡◌ {A = Result E A} (err a) (err b) → a ≡ b
err-injective {E} {A} {a} h = ap from_err h
  where
    from_err : Result E A → E
    from_err (err x) = x
    from_err (ok s) = a

pre_dispatch_error-NotDelivered : (e : AdapterError) → Quiet e → NotDelivered (pre_dispatch_error e)
pre_dispatch_error-NotDelivered e h = ground arith

safe-Quiet : (e : AdapterError) → retry e.disposition ≡ safe → Quiet e
unfolding retry
safe-Quiet e h = ground arith

identity_verdict-Quiet :
    (m : IdentityMatch) (e : AdapterError) → identity_verdict m ≡ err e → Quiet e
unfolding stale_live_element
identity_verdict-Quiet same_identity e h = cc h
identity_verdict-Quiet other_identity e h = rw (sym (err-injective h)) refl
identity_verdict-Quiet unknown_identity e h = rw (sym (err-injective h)) refl

map_err-err :
    {A : Type 0} (f : AdapterError → AdapterError) (r : Result AdapterError A) (e : AdapterError)
    → map_err f r ≡ err e
    → (reason : AdapterError) × (r ≡ err reason) × (e ≡ f reason)
map_err-err f (ok a) e h = cc h
map_err-err f (err reason) e h = (reason, refl, sym (err-injective h))

module _ (parse_f64 : Text → Option F64) where
  validate-Quiet :
      (entry : RefEntry) (live : LiveElement) (e : AdapterError)
      → validate_live_identity parse_f64 entry live ≡ err e
      → Quiet e
  unfolding validate_live_identity stale_live_element
  validate-Quiet entry live e h =
      elim (Bool-cases (
        text_eq live.state.role (codes "unknown")
        || not (text_eq live.state.role entry.identity.role))) [
          | inl changed ↦ rw (sym (err-injective (rw changed at h))) refl
          | inr kept ↦ elim (Bool-cases (not (has_meaningful_identity parse_f64 entry))) [
            | inl vague ↦ cc (rw (kept, vague) at h)
            | inr telling ↦ identity_verdict-Quiet _ e (rw (kept, telling) at h)
          ]
        ]

  -- An error of the observation is that of the read, or quiet.
  observe-Quiet :
      (entry : RefEntry) (live : Result AdapterError LiveElement) (e : AdapterError)
      → ((reason : AdapterError) → live ≡ err reason → Quiet reason)
      → observe_live parse_f64 entry live ≡ err e
      → Quiet e
  unfolding observe_live
  observe-Quiet entry (err reason) e quiet h = elim (Bool-cases (is_unsupported reason.code)) [
    | inl missing ↦ rw (sym (err-injective (rw missing at h))) refl
    | inr other ↦ subst Quiet (err-injective (rw other at h)) (quiet reason refl)
  ]
  observe-Quiet entry (ok live) e quiet h =
      elim (>>=-err (validate_live_identity parse_f64 entry live) _ e h) [
        | inl refused ↦ validate-Quiet entry live e refused
        | inr (u, rest) ↦ cc rest
      ]

  check_live-NotDelivered :
      (hash : Rect → ℕ) (arithmetic : Arithmetic) (entry : RefEntry)
      (live : Result AdapterError LiveElement) (hit_test : HitTest) (request : ActionRequest)
      (x : StabilityExpectation) (e : AdapterError)
      → ((reason : AdapterError) → live ≡ err reason → Quiet reason)
      → ((n : ℕ) (p : Point) (reason : AdapterError) → hit_test n p ≡ err reason → Quiet reason)
      → check_live_with_stability parse_f64 hash arithmetic entry live hit_test request x ≡ err e
      → NotDelivered e
  unfolding check_live_with_stability
  check_live-NotDelivered hash arithmetic entry live hit_test request x e live_quiet hit_quiet h =
      elim (>>=-err (map_err pre_dispatch_error (observe_live parse_f64 entry live)) _ e h) [
        | inl unread ↦
            let (reason, from, marked) = map_err-err pre_dispatch_error _ e unread in
            ap (λ a. a.disposition) marked
            ∙ pre_dispatch_error-NotDelivered reason
                (observe-Quiet entry live reason live_quiet from)
        | inr (evidence, refused) ↦
            let (reason, from, marked) = map_err-err pre_dispatch_error _ e refused in
            ap (λ a. a.disposition) marked
            ∙ pre_dispatch_error-NotDelivered reason
                (elim (refused_is_safe hash arithmetic x evidence request (some hit_test) reason
                  from) [
                    | inl (n, p, hit) ↦ hit_quiet n p reason hit
                    | inr fine ↦ safe-Quiet reason fine
                  ])
      ]

module _ (parse_f64 : Text → Option F64) (hash : Rect → ℕ) (arithmetic : Arithmetic) {W : Type 0}
    {H : Type 0} (adapter : LiveAdapter W H) (entry : RefEntry) (request : ActionRequest)
    (d : Deadline) where
  -- The error is that of a trace that could not be written.
  pub data FromTrace (e : ActionError) : Type 0 where
    at_start : (w : W) → (adapter.trace_start w).0 ≡ err e → FromTrace e
    at_end :
        (report : ActionabilityReport) (w : W) → (adapter.trace_ok report w).0 ≡ err e → FromTrace e

  outcome-NotDelivered :
      (details : Option Details) (checked : Result AdapterError ActionabilityReport) (w : W)
      (e : ActionError)
      → ((reason : AdapterError) → checked ≡ err reason → NotDelivered reason)
      → (traced_outcome parse_f64 hash arithmetic adapter entry request d details checked w).0
        ≡ err e
      → NotDelivered e.error ⊎ FromTrace e
  unfolding traced_outcome
  outcome-NotDelivered details (ok report) w e quiet h = inr (at_end report w h)
  outcome-NotDelivered details (err reason) w e quiet h =
      inl (ap (λ a. a.error.disposition) (sym (err-injective h)) ∙ quiet reason refl)

  without_details-err :
      {A : Type 0} (r : Result ActionError A) (reason : AdapterError)
      → without_details r ≡ err reason
      → (e : ActionError) × (r ≡ err e) × (e.error ≡ reason)
  without_details-err (ok a) reason h = cc h
  without_details-err (err e) reason h = (e, refl, err-injective h)

  checked-NotDelivered :
      (quiet : IsReadOnly adapter) (handle : H) (x : StabilityExpectation) (w : W) (e : ActionError)
      → (checked_after_start parse_f64 hash arithmetic adapter entry request d handle x w).0 ≡ err e
      → NotDelivered e.error ⊎ FromTrace e
  unfolding checked_after_start
  checked-NotDelivered quiet handle x w e h =
      let live = adapter.get_live_element handle d w in
      let hits = adapter.hit_test handle d live.1 in
      outcome-NotDelivered _
        (check_live_with_stability parse_f64 hash arithmetic entry (without_details live.0) hits
          request x)
        _ e
        (λ reason.
          check_live-NotDelivered parse_f64 hash arithmetic entry (without_details live.0) hits
            request x reason
            (λ unread from.
              let (full, read, same) = without_details-err live.0 unread from in
              subst Quiet same (quiet.live_quiet handle d w full read))
            (λ n p missed hit. quiet.hit_quiet handle d live.1 n p missed hit))
        h

  pub preflight-NotDelivered :
      (quiet : IsReadOnly adapter) (handle : H) (x : StabilityExpectation) (w : W) (e : ActionError)
      → (preflight_resolved parse_f64 hash arithmetic adapter entry request d handle x w).0 ≡ err e
      → NotDelivered e.error ⊎ FromTrace e
  unfolding preflight_resolved
  preflight-NotDelivered quiet handle x w e h = elim (Result-cases (adapter.trace_start w).0) [
    | inl (u, started) ↦
        checked-NotDelivered quiet handle x (adapter.trace_start w).1 e
          (rw (started, preflight_resolved) at h)
    | inr (reason, stopped) ↦
        inr (at_start w (stopped ∙ ap err (err-injective (rw (stopped, preflight_resolved) at h))))
  ]

-- The report whose details an error carries is the one that `check_with_stability` finishes with.
reported-finish :
    (parse_f64 : Text → Option F64) (hash : Rect → ℕ) (arithmetic : Arithmetic)
    (x : StabilityExpectation) (evidence : ActionabilityEvidence) (request : ActionRequest)
    (hit_test : HitTest)
    → (reported parse_f64 hash arithmetic x evidence request hit_test >>= finish evidence)
      ≡ check_with_stability hash arithmetic x evidence request (some hit_test)
unfolding reported check_with_stability
reported-finish parse_f64 hash arithmetic x evidence request hit_test =
    let delivery =
      pointer_delivery_of (requirements_for request.action) request.action
        evidence.available_actions request.policy in
    let checks = gate_checks hash arithmetic x evidence request delivery in
    elim (Bool-cases (any (λ c. not (is_pass c.status)) checks)) [
      | inl bad ↦ rw bad refl
      | inr good ↦
          rw good
            (elim (Result-cases
              (hit_checks hash arithmetic evidence request (some hit_test) delivery)) [
                | inl (hits, e) ↦ rw e refl
                | inr (reason, e) ↦ rw e refl
              ])
    ]
