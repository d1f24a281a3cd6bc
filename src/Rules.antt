-- ===== src/Rules.antt =====
-- app/modules/rules/service.py: rules and their versions, and their assignments to datasets.
pub mod Service
pub mod Assignments
pub mod Current
pub mod Promotion
pub mod Calls
pub mod Versions
pub mod CrossColumn
pub mod Assigned
pub mod Twice
pub mod Reviewed
