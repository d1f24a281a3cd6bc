-- ===== src/Jobs.antt =====
-- app/modules/jobs
pub mod Redis
pub mod Service
pub mod Sweep
pub mod Cancel
pub mod Swept
