-- ===== src/Error.antt =====
-- crates/core/src/error_code.rs, delivery_semantics.rs, delivery_disposition.rs, retryability.rs,
-- retry_disposition.rs, adapter_error.rs and app_error.rs. An error carries its code, its message,
-- its suggestion, its delivery and whether it may be retried. A message is the source's format
-- string: what it interpolates is left out, and so are `platform_detail` and the JSON of `details`
-- but for its key `retryable`.
pub mod Wire
use agent_desktop.Prelude.{
  Bool, Option, Result, String, err, false, if◌then◌else◌, none, not, ok, some, true, ◌&&◌,
}

pub data ErrorCode : Type 0 where
  perm_denied element_not_found app_not_found action_failed action_not_supported : ErrorCode
  stale_ref ambiguous_target window_not_found platform_not_supported timeout : ErrorCode
  invalid_args notification_not_found snapshot_not_found policy_denied app_unresponsive : ErrorCode
  internal : ErrorCode

unfoldable pub as_str : ErrorCode → String
as_str perm_denied = "PERM_DENIED"
as_str element_not_found = "ELEMENT_NOT_FOUND"
as_str app_not_found = "APP_NOT_FOUND"
as_str action_failed = "ACTION_FAILED"
as_str action_not_supported = "ACTION_NOT_SUPPORTED"
as_str stale_ref = "STALE_REF"
as_str ambiguous_target = "AMBIGUOUS_TARGET"
as_str window_not_found = "WINDOW_NOT_FOUND"
as_str platform_not_supported = "PLATFORM_NOT_SUPPORTED"
as_str timeout = "TIMEOUT"
as_str invalid_args = "INVALID_ARGS"
as_str notification_not_found = "NOTIFICATION_NOT_FOUND"
as_str snapshot_not_found = "SNAPSHOT_NOT_FOUND"
as_str policy_denied = "POLICY_DENIED"
as_str app_unresponsive = "APP_UNRESPONSIVE"
as_str internal = "INTERNAL"

pub data DeliveryDisposition : Type 0 where
  unknown not_delivered delivery_uncertain delivered_unverified delivered_verified :
      DeliveryDisposition

pub data RetryDisposition : Type 0 where
  unknown safe unsafe : RetryDisposition

-- `DeliverySemantics`: what is known of the delivery of an action.
pub data DeliverySemantics : Type 0 where
  unknown not_delivered delivery_uncertain delivered_unverified delivered_verified :
      DeliverySemantics

unfoldable pub delivery : DeliverySemantics → DeliveryDisposition
delivery DeliverySemantics.unknown = DeliveryDisposition.unknown
delivery DeliverySemantics.not_delivered = DeliveryDisposition.not_delivered
delivery DeliverySemantics.delivery_uncertain = DeliveryDisposition.delivery_uncertain
delivery DeliverySemantics.delivered_unverified = DeliveryDisposition.delivered_unverified
delivery DeliverySemantics.delivered_verified = DeliveryDisposition.delivered_verified

unfoldable pub retry : DeliverySemantics → RetryDisposition
retry DeliverySemantics.not_delivered = safe
retry DeliverySemantics.delivery_uncertain = unsafe
retry DeliverySemantics.delivered_unverified = unsafe
retry DeliverySemantics.delivered_verified = unsafe
retry DeliverySemantics.unknown = RetryDisposition.unknown

unfoldable pub semantics_of : DeliveryDisposition → DeliverySemantics
semantics_of DeliveryDisposition.unknown = DeliverySemantics.unknown
semantics_of DeliveryDisposition.not_delivered = DeliverySemantics.not_delivered
semantics_of DeliveryDisposition.delivery_uncertain = DeliverySemantics.delivery_uncertain
semantics_of DeliveryDisposition.delivered_unverified = DeliverySemantics.delivered_unverified
semantics_of DeliveryDisposition.delivered_verified = DeliverySemantics.delivered_verified

unfoldable pub retry_eq : RetryDisposition → RetryDisposition → Bool
retry_eq RetryDisposition.unknown RetryDisposition.unknown = true
retry_eq safe safe = true
retry_eq unsafe unsafe = true
retry_eq _ _ = false

-- `Deserialize for DeliverySemantics`, past the JSON: the two fields that were read.
unfoldable pub deserialize_semantics :
    DeliveryDisposition → RetryDisposition → Result String DeliverySemantics
unfolding semantics_of retry retry_eq
deserialize_semantics d r =
    let semantics = semantics_of d in
    if not (retry_eq (retry semantics) r)
    then err "delivery and retry dispositions are inconsistent"
    else ok semantics

pub data Retryability : Type 0 where
  unspecified retryable non_retryable : Retryability

-- `Retryability::from_details`, given the Boolean at the key `retryable`.
unfoldable pub from_details : Option Bool → Retryability
from_details none = unspecified
from_details (some true) = retryable
from_details (some false) = non_retryable

pub record AdapterError : Type 0 where
  pub code : ErrorCode
  pub message : String
  pub suggestion : Option String
  pub disposition : DeliverySemantics
  pub retryability : Retryability

abbrev pub new : ErrorCode → String → AdapterError
new c m = record {
  code = c;
  message = m;
  suggestion = none;
  disposition = DeliverySemantics.unknown;
  retryability = unspecified;
}

abbrev pub with_suggestion : String → AdapterError → AdapterError
with_suggestion s e = record e { suggestion = some s }

abbrev pub with_disposition : DeliverySemantics → AdapterError → AdapterError
with_disposition d e = record e { disposition = d }

-- `with_details`: an explicit `retryable` overrides what the error said before.
abbrev pub with_details : Option Bool → AdapterError → AdapterError
with_details none e = e
with_details (some true) e = record e { retryability = retryable }
with_details (some false) e = record e { retryability = non_retryable }

unfoldable pub is_explicitly_retryable : AdapterError → Bool
is_explicitly_retryable e = elim e.retryability [ retryable ↦ true | _ ↦ false ]

abbrev pub is_transient_code : ErrorCode → Bool
is_transient_code stale_ref = true
is_transient_code ambiguous_target = true
is_transient_code timeout = true
is_transient_code app_unresponsive = true
is_transient_code _ = false

unfoldable pub is_retryable_resolution_failure : AdapterError → Bool
unfolding is_explicitly_retryable
is_retryable_resolution_failure e = is_transient_code e.code && is_explicitly_retryable e

unfoldable pub permits_retry_by_default : AdapterError → Bool
permits_retry_by_default e = elim e.retryability [ non_retryable ↦ false | _ ↦ true ]

pub data AppError : Type 0 where
  adapter : AdapterError → AppError
  io json : AppError
  internal_error : String → AppError

unfoldable pub app_code : AppError → String
unfolding as_str
app_code (adapter e) = as_str e.code
app_code io = "INTERNAL"
app_code json = "INTERNAL"
app_code (internal_error m) = "INTERNAL"

abbrev pub invalid_input : String → AppError
invalid_input m = adapter (with_disposition DeliverySemantics.not_delivered (new invalid_args m))

abbrev pub invalid_input_with_suggestion : String → String → AppError
invalid_input_with_suggestion m s =
    adapter
      (with_disposition DeliverySemantics.not_delivered (with_suggestion s (new invalid_args m)))
