-- ===== src/Validation.antt =====
-- app/modules/validation: the rules' evaluators.
pub mod Failures
pub mod Engine
pub mod Repeated
pub mod Checked
