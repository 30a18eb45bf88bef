-- ===== src/Disruption.antt =====
-- internal/webhook/disruption_webhook.go: the answer to a request to evict a Pod. The handler changes
-- nothing but the lease tracker, which it returns with its answer.
pub mod Identity
pub mod Handler
pub mod Evictions
pub mod Requests
