-- ===== src/Wallets.antt =====
-- The operator's two wallet services: `post_manual_wallet_adjustment` and `reverse_ledger_entry`.
pub mod Adjust
pub mod Reverse
pub mod Kept
pub mod Found
pub mod Effects
pub mod Reversals
