-- ===== src/Stable/Services.antt =====
-- Every service keeps what every save keeps, whether it returns or raises.
pub mod Wallets
pub mod Periods
pub mod Payments
pub mod Callbacks
pub mod Subscriptions
