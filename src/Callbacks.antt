-- ===== src/Callbacks.antt =====
-- The M-PESA callbacks (billing/mpesa_callbacks.py): what is kept of a payload, the capture of an
-- event, and the processing of a Paybill confirmation (billing/services.py).
pub mod Sanitize
pub mod Hidden
pub mod Extract
pub mod Capture
pub mod Captured
pub mod Again
