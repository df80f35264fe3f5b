-- ===== src/Guards.antt =====
-- `_reject_protected_changes` of the append-only models of billing/models.py, which `save` calls first.
pub mod Reject
pub mod Unchanged
