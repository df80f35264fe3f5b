-- ===== src/Validity/Saves.antt =====
-- Every save of a row keeps the invariant of the database, one child module for each table.
pub mod Entry
pub mod Billing
pub mod Payment
pub mod Subscription
