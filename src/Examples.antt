-- ===== src/Examples.antt =====
-- Concrete inputs on which the theorems are applied.
mod Samples
mod Classes
mod Leases
mod Limits
mod Pods
mod Evictions
mod Webhook
mod Admission
mod Controller
mod Unlimited
mod Spot
