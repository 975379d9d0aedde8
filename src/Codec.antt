-- ===== src/Codec.antt =====
-- The wire formats: pkg/codec.
pub mod Out
pub mod Options
pub mod Said
pub mod Says
pub mod OpenAi
pub mod Anthropic
pub mod Agree
mod Examples
