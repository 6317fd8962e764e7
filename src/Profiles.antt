-- ===== src/Profiles.antt =====
-- profiles/: trading profiles, their registry, and the snapshot of the configuration of a trade.
pub mod Model
pub mod Registry
pub mod Snapshot
mod Tests
pub use Model.{TradingProfile}
