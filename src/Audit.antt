-- ===== src/Audit.antt =====
-- The redaction of an audit event's metadata (audit/service.py).
pub mod Redact
pub mod Redacted
