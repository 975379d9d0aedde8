-- ===== src/Provider.antt =====
-- The providers and their registry: pkg/provider.
pub mod Registry
pub mod Options
pub mod Sse
mod Examples
