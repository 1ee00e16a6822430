-- ===== src/LiveCheck/Identity.antt =====
-- A live check that passes has seen the element of the entry.
use agent_desktop.Prelude.{
  >>=-eq-ok, Bool-cases, Option, Result, arith, err, false, inl, inr, not, ok, ok-injective, refl,
  some, subst, sym, true, ℕ, ◌||◌, ◌≡◌,
}
use agent_desktop.Text.{Text, codes, text_eq}
use agent_desktop.Error.{AdapterError}
use agent_desktop.Geometry.{F64, Rect}
use agent_desktop.RefEntry.{RefEntry}
use agent_desktop.Action.{ActionRequest}
use agent_desktop.Actionability.{StabilityExpectation, ActionabilityEvidence}
use agent_desktop.Actionability.Gates.{Arithmetic}
use agent_desktop.Actionability.Check.{ActionabilityReport, HitTest, check_with_stability}
use agent_desktop.PostAction.{LiveElement}
use agent_desktop.RefIdentity.{
  IdentityMatch, has_meaningful_identity, identity_match, other_identity, same_identity,
  unknown_identity,
}
use agent_desktop.LiveCheck.{
  check_live_with_stability, evidence_of, identity_verdict, map_err, observe_live,
  validate_live_identity, value_field, is_unsupported, pre_dispatch_error,
}

map_err-eq-ok :
    {A : Type 0} (f : AdapterError → AdapterError) (r : Result AdapterError A) {a : A}
    → map_err f r ≡ ok a
    → r ≡ ok a
map_err-eq-ok f (ok x) h = h
map_err-eq-ok f (err e) h = cc h

identity_verdict-eq-ok :
    (m : IdentityMatch) {u : Unit {0}} → identity_verdict m ≡ ok u → m ≡ same_identity
identity_verdict-eq-ok same_identity h = refl
identity_verdict-eq-ok other_identity h = cc h
identity_verdict-eq-ok unknown_identity h = cc h

module _ (parse_f64 : Text → Option F64) where
  -- What is known of an element that is accepted.
  pub record IsSameElement (entry : RefEntry) (live : LiveElement) : Type 0 where
    pub same_role : text_eq live.state.role entry.identity.role ≡ true
    pub known_role : text_eq live.state.role (codes "unknown") ≡ false
    pub same :
        has_meaningful_identity parse_f64 entry ≡ true
        → identity_match parse_f64 entry live.identity.name
            (value_field live.state.value)
            live.identity.description
            live.identity.identifiers
          ≡ same_identity

  validate-IsSameElement :
      (entry : RefEntry) (live : LiveElement) {u : Unit {0}}
      → validate_live_identity parse_f64 entry live ≡ ok u
      → IsSameElement entry live
  unfolding validate_live_identity
  validate-IsSameElement entry live h =
      elim (Bool-cases (
        text_eq live.state.role (codes "unknown")
        || not (text_eq live.state.role entry.identity.role))) [
          | inl changed ↦ cc (rw changed at h)
          | inr kept ↦
              let rest = rw kept at h in
              record {
                same_role = ground arith;
                known_role = ground arith;
                same = λ meaningful. identity_verdict-eq-ok _ (rw meaningful at rest);
              }
        ]

  observe-IsSameElement :
      (entry : RefEntry) (live : Result AdapterError LiveElement) (evidence : ActionabilityEvidence)
      → observe_live parse_f64 entry live ≡ ok evidence
      → (element : LiveElement) × (live ≡ ok element)
        × IsSameElement entry element
        × (evidence ≡ evidence_of parse_f64 element)
  unfolding observe_live
  observe-IsSameElement entry (err e) evidence h = elim (Bool-cases (is_unsupported e.code)) [
    | inl unsupported ↦ cc (rw unsupported at h)
    | inr other ↦ cc (rw other at h)
  ]
  observe-IsSameElement entry (ok element) evidence h =
      let (u, valid, made) = >>=-eq-ok (validate_live_identity parse_f64 entry element) _ h in
      (element, refl, validate-IsSameElement entry element valid, sym (ok-injective made))

  -- A live check passes only where the element was read, has the role of the entry, and, where the
  -- entry has an identity to go by, matches it.
  pub check_live-IsSameElement :
      (hash : Rect → ℕ) (arithmetic : Arithmetic) (entry : RefEntry)
      (live : Result AdapterError LiveElement) (hit_test : HitTest) (request : ActionRequest)
      (expectation : StabilityExpectation) (report : ActionabilityReport)
      → check_live_with_stability parse_f64 hash arithmetic entry live hit_test request expectation
        ≡ ok report
      → (element : LiveElement) × (live ≡ ok element)
        × IsSameElement entry element
        × (check_with_stability hash arithmetic expectation
              (evidence_of parse_f64 element)
              request
              (some hit_test)
            ≡ ok report)
  unfolding check_live_with_stability
  check_live-IsSameElement hash arithmetic entry live hit_test request expectation report h =
      let (evidence, observed, rest) =
        >>=-eq-ok (map_err pre_dispatch_error (observe_live parse_f64 entry live)) _ h in
      let (element, read, same_, made) =
        observe-IsSameElement entry live evidence (map_err-eq-ok pre_dispatch_error _ observed) in
      (
        element,
        read,
        same_,
        subst
            (λ e.
              check_with_stability hash arithmetic expectation e request (some hit_test)
              ≡ ok report)
            made (map_err-eq-ok pre_dispatch_error _ rest),
      )
