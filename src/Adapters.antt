-- ===== src/Adapters.antt =====
-- adapters/: the exchange as the program sees it, and the stand-in for it that runs in memory.
pub mod Capabilities
pub mod Interfaces
pub mod Mock
