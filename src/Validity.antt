-- ===== src/Validity.antt =====
-- The invariant of the whole database, and that every service keeps it.
pub mod Invariant
pub mod Saves
pub mod Services
