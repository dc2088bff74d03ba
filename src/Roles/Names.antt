-- ===== src/Roles/Names.antt =====
-- The names of the roles under `CreateRoleProvider`.
