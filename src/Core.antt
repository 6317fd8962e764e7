-- ===== src/Core.antt =====
-- core/: the neutral core. Pure decisions, no exchange.
pub mod Position
pub mod Conflict
pub mod Protection
pub mod Risk
pub mod Entry
