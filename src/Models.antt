-- ===== src/Models.antt =====
-- app/db/models: the rows of the tables, one record for each model class. Primary keys and times are
-- natural numbers, and a column that no modelled code reads or writes is left out.
pub mod Review
pub mod Approval
pub mod Validation
pub mod Jobs
pub mod Publishing
pub mod Trail
pub mod Rules
pub mod Identity
pub mod Staging
