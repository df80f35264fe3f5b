-- ===== src/Periods.antt =====
-- Billing periods: their dates and their state, the validation and the saving of a row
-- (billing/models.py, class BillingPeriod), and the services that activate and renew them.
pub mod Dates
pub mod Clean
pub mod Save
pub mod Renew
pub mod Timeline
pub mod Opened
pub mod Renewed
