-- ===== src/LiveCheck.antt =====
-- crates/core/src/actionability/live.rs: the evidence for the checks is read from the live element,
-- which must still be the one that the ref entry describes. `live` and `hit_test` are what the
-- adapter's `get_live_element` and hit tests return; `parse_f64` is `str::parse::<f64>`.
pub mod Identity
use agent_desktop.Prelude.{
  Bool, Option, Result, String, err, false, if◌then◌else◌, none, not, ok, some, true, ℕ, ◌>>=◌,
  ◌>>◌, ◌||◌,
}
use agent_desktop.Text.{Text, codes, text_eq}
use agent_desktop.Error.{
  AdapterError, DeliverySemantics, ErrorCode, action_not_supported, app_unresponsive, new,
  not_delivered, platform_not_supported, stale_ref, unknown, with_details, with_disposition,
  with_suggestion,
}
use agent_desktop.Geometry.{F64, Rect}
use agent_desktop.RefEntry.{RefEntry}
use agent_desktop.Action.{ActionRequest, name}
use agent_desktop.Actionability.{ActionabilityEvidence, StabilityExpectation}
use agent_desktop.Actionability.Gates.{Arithmetic}
use agent_desktop.Actionability.Check.{ActionabilityReport, HitTest, check_with_stability}
use agent_desktop.Locator.{LocatorField, absent, known}
use agent_desktop.PostAction.{LiveElement}
use agent_desktop.RefIdentity.{
  IdentityMatch, has_meaningful_identity, identity_match, other_identity, same_identity,
  unknown_identity,
}

unfoldable pub stale_live_element : String → AdapterError
stale_live_element message = with_disposition DeliverySemantics.not_delivered (
    with_details (some true) (
      with_suggestion
        "Re-run a snapshot to obtain fresh refs, then retry with the new ref (CLI: snapshot; FFI: ad_snapshot then ad_execute_by_ref with the returned snapshot_id)"
        (new stale_ref message)))

-- `AdapterError::app_unresponsive`.
abbrev pub app_unresponsive_new : AdapterError
app_unresponsive_new = with_disposition DeliverySemantics.not_delivered (
    with_suggestion "Wait for the app to recover or force-quit it before retrying automation"
      (new app_unresponsive "Application '{app}' is not responding"))

abbrev pub is_unsupported : ErrorCode → Bool
is_unsupported platform_not_supported = true
is_unsupported action_not_supported = true
is_unsupported _ = false

abbrev pub evidence_required : AdapterError
evidence_required =
    with_disposition DeliverySemantics.not_delivered
      (new action_not_supported "Live element evidence is required for actionability checks")

abbrev pub pre_dispatch_error : AdapterError → AdapterError
pre_dispatch_error e = record e { disposition = mark_not_delivered e.disposition }
  where
    mark_not_delivered : DeliverySemantics → DeliverySemantics
    mark_not_delivered DeliverySemantics.unknown = DeliverySemantics.not_delivered
    mark_not_delivered d = d

abbrev pub map_err :
    {A : Type 0} → (AdapterError → AdapterError) → Result AdapterError A → Result AdapterError A
map_err f (ok a) = ok a
map_err f (err e) = err (f e)

-- `value.clone().map(Known).unwrap_or(Absent)`.
abbrev pub value_field : Option Text → LocatorField Text
value_field none = absent
value_field (some t) = known t

abbrev pub identity_verdict : IdentityMatch → Result AdapterError (Unit {0})
identity_verdict same_identity = ok tt
identity_verdict other_identity =
    err (stale_live_element "Resolved element changed identity before dispatch")
identity_verdict unknown_identity = err (with_details (some true) app_unresponsive_new)

module _ (parse_f64 : Text → Option F64) where
  unfoldable pub validate_live_identity : RefEntry → LiveElement → Result AdapterError (Unit {0})
  unfolding text_eq has_meaningful_identity identity_match stale_live_element
  validate_live_identity entry live =
      if text_eq live.state.role (codes "unknown")
        || not (text_eq live.state.role entry.identity.role)
      then err (stale_live_element "Resolved element changed role before dispatch")
      else if not (has_meaningful_identity parse_f64 entry)
      then ok tt
      else identity_verdict (
          identity_match parse_f64 entry live.identity.name (value_field live.state.value)
            live.identity.description live.identity.identifiers)

  abbrev pub evidence_of : LiveElement → ActionabilityEvidence
  evidence_of live = record {
    state = live.state;
    states_complete = live.states_complete;
    bounds = live.bounds;
    available_actions = live.available_actions;
  }

  unfoldable pub observe_live :
      RefEntry → Result AdapterError LiveElement → Result AdapterError ActionabilityEvidence
  unfolding validate_live_identity
  observe_live entry (err e) = if is_unsupported e.code then err evidence_required else err e
  observe_live entry (ok live) = validate_live_identity entry live >> ok (evidence_of live)

  unfoldable pub check_live_with_stability :
      (Rect → ℕ)
      → Arithmetic
      → RefEntry
      → Result AdapterError LiveElement
      → HitTest
      → ActionRequest
      → StabilityExpectation
      → Result AdapterError ActionabilityReport
  unfolding observe_live check_with_stability
  check_live_with_stability hash arithmetic entry live hit_test request expectation =
      map_err pre_dispatch_error (observe_live entry live) >>= λ evidence.
      map_err pre_dispatch_error
        (check_with_stability hash arithmetic expectation evidence request (some hit_test))
