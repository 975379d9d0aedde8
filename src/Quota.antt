-- ===== src/Quota.antt =====
-- Quotas and limits: pkg/quota.
pub mod LimitError
pub mod Classifier
pub mod Store
pub mod Observer
pub mod Breaker
pub mod Scheduler
mod Examples
