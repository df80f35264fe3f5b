-- ===== src/Ledger.antt =====
-- The wallet ledger: its arithmetic (billing/services.py), the validation and the saving of an entry
-- (billing/models.py, class LedgerEntry), and its properties.
pub mod Clean
pub mod Save
pub mod Chain
pub mod Accepted
pub mod Invariant
pub mod Balance
