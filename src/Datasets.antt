-- ===== src/Datasets.antt =====
-- app/modules/datasets: the keys of datasets, and whether they are active.
pub mod Keys
pub mod Service
pub mod Configured
pub mod Evidence
pub mod Discovery
pub mod Verified
pub mod Ordered
