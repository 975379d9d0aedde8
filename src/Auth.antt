-- ===== src/Auth.antt =====
-- pkg/auth: the credential manager.
pub mod Manager
pub mod Examples
