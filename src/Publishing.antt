-- ===== src/Publishing.antt =====
-- app/modules/publishing: publish runs, the gate on source drift, and the export to a file.
pub mod World
pub mod Options
pub mod Export
pub mod Service
pub mod Runs
pub mod Tasks
pub mod Gate
pub mod Started
pub mod Published
pub mod Trigger
