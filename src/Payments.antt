-- ===== src/Payments.antt =====
-- Payments: their validation, their allocation to a wallet, and the cases of those that match no
-- subscriber (billing/models.py, billing/services.py).
pub mod References
pub mod Clean
pub mod Save
pub mod Ingest
pub mod Effects
pub mod Ingested
pub mod Again
pub mod Resolved
pub mod Resolve
