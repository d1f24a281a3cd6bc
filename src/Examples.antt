-- ===== src/Examples.antt =====
-- Concrete databases and calls: tests by evaluation, and the theorems at inputs that meet their
-- hypotheses.
mod Data
mod Approvals
mod Reviews
mod Jobs
mod Archive
mod Bulk
mod Edges
mod Staging
mod Rules
mod Auth
mod Publishing
mod Validation
mod Datasets
