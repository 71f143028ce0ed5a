-- ===== src/Auth.antt =====
-- src/xgen_sdk/auth: what a user may do.
pub mod Permissions
pub mod Roles
