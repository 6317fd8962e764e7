-- ===== src/Domain.antt =====
-- domain/enums.py and domain/models.py: the program's data.
pub mod Enums
pub mod Models
pub mod Validation
mod Tests
