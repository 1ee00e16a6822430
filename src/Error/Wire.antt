-- ===== src/Error/Wire.antt =====
-- The two dispositions of a delivery, as they are written and read back.
use agent_desktop.Prelude.{arith, ok, ◌↔◌, ◌≡◌}
use agent_desktop.Error.{
  DeliveryDisposition, DeliverySemantics, RetryDisposition, delivery, deserialize_semantics, retry,
}

-- Two dispositions are read as a delivery exactly when they are the two that it is written as.
pub deserialize_semantics_iff :
    (d : DeliveryDisposition) (r : RetryDisposition) (s : DeliverySemantics)
    → (deserialize_semantics d r ≡ ok s) ↔ ((delivery s ≡ d) × (retry s ≡ r))
unfolding deserialize_semantics delivery
deserialize_semantics_iff d r s = ground arith
