-- ===== src/Roles.antt =====
-- The assignment of roles to staff users: `assign_roles_to_user` of users/services.py, with
-- `_validate_role_authorization`, `invalidate_user_sessions` and `is_owner` of users/roles.py.
pub mod Granted
pub mod Named
pub mod Authorized
pub mod Rows
pub mod Assign
pub mod Assigned
pub mod Owners
