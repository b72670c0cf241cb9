-- ===== src/Substrate.antt =====
-- packages/substrate/src/substrate: the parts that the product stands on.
pub mod Resilience
pub mod Queue
pub mod Pricing
pub mod Worker
pub mod Adapters
