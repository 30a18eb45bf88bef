-- ===== src/PodWebhook.antt =====
-- internal/webhook/v1: the webhook that places a Pod when it is created. Logging and events are left out.
pub mod Counts
pub mod Budgets
pub mod Handler
pub mod Counted
pub mod Limits
pub mod Decision
pub mod Default
