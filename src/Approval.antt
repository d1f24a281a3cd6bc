-- ===== src/Approval.antt =====
-- app/modules/approval: requests to approve the resolved issues of a review run.
pub mod Status
pub mod Scope
pub mod Service
pub mod Decided
pub mod Decide
pub mod Submit
pub mod Outcome
