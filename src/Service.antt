-- ===== src/Service.antt =====
-- What all service functions of billing/services.py share: permissions, the normalising of their
-- arguments, the audit trail, and the looking up of locked rows.
pub mod Access
pub mod Inputs
pub mod Lookup
pub mod Effects
