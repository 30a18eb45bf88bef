-- ===== src/Controller.antt =====
-- internal/controller/workloadclass_controller.go: the reconciler of WorkloadClasses.
pub mod Messages
pub mod Truncated
pub mod Capacity
pub mod CapacityLimits
pub mod CapacityComply
pub mod Validation
pub mod Conditions
pub mod Readiness
pub mod ReadinessCases
pub mod Store
pub mod Pdbs
pub mod Untouched
pub mod Leased
pub mod Protected
pub mod Namespace
pub mod Foreign
pub mod Kept
pub mod Reconcile
pub mod Overlaps
pub mod Status
pub mod StatusKept
pub mod Unlimited
