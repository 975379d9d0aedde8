-- ===== src/Server.antt =====
-- The HTTP server's control logic: pkg/server.
pub mod Catalog
pub mod Models
pub mod Router
pub mod Metadata
pub mod Listing
pub mod Timeouts
pub mod Refresh
pub mod Options
pub mod Upstream
pub mod Delivery
pub mod Dispatch
mod Examples
