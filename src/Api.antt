-- ===== src/Api.antt =====
-- api/: what the HTTP endpoints of the program do with its parts.
pub mod State
pub mod Demo
pub mod Status
