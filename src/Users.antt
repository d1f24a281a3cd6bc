-- ===== src/Users.antt =====
-- app/modules/users: accounts, their roles, and the reset of a password by an administrator.
pub mod Service
pub mod Reset
