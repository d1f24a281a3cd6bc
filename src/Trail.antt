-- ===== src/Trail.antt =====
-- app/modules/audit/service.py and app/modules/lineage/service.py: the two logs that every service
-- writes to.
pub mod Audit
pub mod Lineage
pub mod Edges
