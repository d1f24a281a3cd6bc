-- ===== src/Core.antt =====
-- app/core: the exceptions, and one database transaction as a monad.
pub mod Exceptions
pub mod Text
pub mod Database
pub mod Session
pub mod Action
