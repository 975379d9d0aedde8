-- ===== src/State.antt =====
-- The runtime state of the providers: pkg/state.
pub mod Types
pub mod Manager
pub mod Admin
pub mod Circuit
pub mod Concurrent
mod Examples
