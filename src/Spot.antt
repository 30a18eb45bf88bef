-- ===== src/Spot.antt =====
-- internal/controller: the controller of Spot placement, which reports fallback and reverts it.
pub mod Capacity
pub mod Fallback
pub mod Agreement
pub mod Latch
pub mod Reversion
pub mod Evicted
pub mod Policy
pub mod PolicyAllowed
pub mod Attach
pub mod Attached
pub mod Reconcile
pub mod Managed
