-- ===== src/Access.antt =====
-- Who may do what: roles and their capabilities, the tenant of a session, and failed logins.
pub mod Roles
pub mod Tenant
pub mod LoginLimit
