-- ===== src/Paybill.antt =====
-- The processing of M-PESA Paybill confirmations (billing/services.py), with the models of the link
-- between an event and its payment and of the provider profile (billing/models.py).
pub mod Settings
pub mod Link
pub mod Process
pub mod Skipped
pub mod Processed
pub mod Confirmed
pub mod Again
pub mod Sync
pub mod Synced
