-- ===== src/Charges.antt =====
-- Wallet-funded billing: the validation and the saving of a charge (billing/models.py, class
-- BillingCharge), and the service that charges a wallet for a period.
pub mod Clean
pub mod Post
pub mod Effects
pub mod Funded
pub mod Calls
pub mod Again
