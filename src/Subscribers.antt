-- ===== src/Subscribers.antt =====
-- The registry of subscribers and their services (subscribers/models.py, subscribers/services.py,
-- subscribers/phone.py).
pub mod Phone
pub mod Normal
pub mod Clean
pub mod Allocate
pub mod Services
pub mod Sequences
pub mod Accounts
pub mod Returns
