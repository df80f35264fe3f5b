-- ===== src/Subscriptions.antt =====
-- Package assignments: the validation and the saving of a subscription (billing/models.py, class
-- Subscription), and the services that assign, change and end one (billing/services.py).
pub mod Clean
pub mod Assign
