-- ===== src/Auth.antt =====
-- app/modules/auth: tokens, login, refresh, logout and the change of a password.
pub mod Redis
pub mod Tokens
pub mod Effects
pub mod Indexed
pub mod Race
pub mod Service
pub mod Login
pub mod Sessions
pub mod Held
pub mod Winner
