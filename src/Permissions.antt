-- ===== src/Permissions.antt =====
-- src/modules/permissions: the permissions, the grants of a role, and the keys of a role.
pub mod Lookup
pub mod Manage
pub mod Assign
