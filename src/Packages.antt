-- ===== src/Packages.antt =====
-- The packages that are sold: class Plan of billing/models.py, and `create_package`, `update_package`
-- and `set_package_active` of billing/services.py.
pub mod Clean
pub mod Edit
pub mod Catalogue
pub mod Kept
