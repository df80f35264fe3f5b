-- ===== src/Examples.antt =====
-- Tests: the services run on a small database, and the theorems applied at concrete inputs.
pub mod Data
mod Wallets
mod Billing
mod Payments
mod Calls
mod Numbers
mod Subscribers
pub mod Callbacks
pub mod Paybill
mod Profiles
mod Roles
mod Packages
mod Audit
mod Guards
