-- ===== src/Lib.antt =====
-- DataCraft backend: the rules, review, approval, staging, publishing, job and login code of a
-- data-quality platform.
--
-- A validation run of a dataset records failures. A review run turns each failure into an issue, a
-- reviewer decides each issue (accept, edit, reject, skip, correct directly), the resolved issues
-- are submitted for approval, and an approver decides them. The approved corrections are built into
-- staging records, and a publish run exports these to a file.
--
-- Files and sources (paths from the root of the repository):
-- - Prelude: tests, equality, lists, dictionaries, tables under primary keys. No source of its own.
-- - Core: Exceptions (app/core/exceptions.py), Session (app/core/database.py), Action (a call that
--   writes to an external store too), Text (Python's str), Database (the tables that the services
--   share).
-- - Models: app/db/models, one record for each table and one data type for each status column. A
--   column that no modelled code reads or writes is left out.
-- - Trail: Audit (app/modules/audit/service.py), Lineage (app/modules/lineage/service.py), and Edges
--   about the latter.
-- - Validation: Failures and Engine (app/modules/validation/engine.py). Repeated and Checked say which
--   rows it fails.
-- - Review: Runs (app/modules/review/service.py and state_machine.py), Writes, Decisions and Bulk
--   (app/modules/review/decision_service.py). Effect gives what a decision call writes, Invariant
--   and Frozen use it. Atomic is about bulk actions, Archive about archive and restore.
-- - Approval: Status (app/modules/approval/status_logic.py), Scope and Service
--   (app/modules/approval/service.py). Decide, Outcome and Submit are about its operations.
-- - Jobs: Redis (the interface of the Redis client), Service (app/modules/jobs/service.py), Sweep
--   (app/modules/jobs/tasks.py). Cancel and Swept are about cancellation and the stale-job sweep.
-- - Staging: RecordRef (app/modules/validation/record_ref.py and its inverse in
--   app/modules/staging/record_builder.py), Fields (the rest of record_builder.py). RoundTrip,
--   Overlay and Groups are about them.
-- - Rules: Service and Assignments (app/modules/rules/service.py). Current and Calls give what the
--   calls write, Versions, Promotion, Reviewed, Assigned, CrossColumn and Twice are about
--   them.
-- - Datasets: Keys (app/modules/datasets/key_service.py and key_resolution.py), Service
--   (app/modules/datasets/service.py), Evidence and Discovery (business_key_discovery.py). Ordered and
--   Configured are about the key, Verified about the discovery.
-- - Auth: Redis (the interface of the Redis client), Tokens (app/modules/auth/refresh_tokens.py and
--   app/core/security.py), Service (app/modules/auth/service.py). Effects and Indexed are about the
--   token store, Race, Held and Winner about calls of consume at one time, Login and Sessions about
--   the service.
-- - Users: Service and Reset (app/modules/users/service.py).
-- - Publishing: World (the interfaces of Redis and of the file system), Options
--   (app/modules/publishing/run_options.py), Export (file_export.py), Service (service.py), Runs and
--   Tasks (tasks.py). Gate, Started, Published and Trigger are about them.
-- - Examples: concrete databases, tests by evaluation, and the theorems at concrete inputs.
--
-- A service call is a transaction: a function from a session to a result and a session. A session
-- holds the committed tables and the current ones, and what is not committed when the call ends is
-- lost. A result is a value or an error. Every query of the code runs after a flush, so the model
-- writes directly to the current tables. Primary keys are natural numbers that a counter in the
-- database hands out; the code only compares them. `datetime.now` is the time of the call's context.
-- No function runs on fuel: every loop of the modelled code walks a list.
--
-- Redis, the file system, PyJWT, passlib and what Python does with driver values are interfaces: records of operations with named laws, of
-- which Examples has an instance each. What a call wrote to Redis or to a file stays when the call
-- raises. Driver values, `str` on them, their conversions to JSON, and lower-casing are parameters.
-- A unique constraint is a guard that raises IntegrityError; foreign keys are not checked.
--
-- Not modelled: the two SHA-256 hashes of rows, the HTTP routes and schemas, the list queries and
-- their orderings, the texts of messages, rule detection and suggestions, the validation task,
-- profiling, the orchestration of staging, the AI services, source adapters, and the
-- migrations.

pub mod Prelude
pub mod Core
pub mod Models
pub mod Trail
pub mod Review
pub mod Approval
pub mod Jobs
pub mod Rules
pub mod Auth
pub mod Publishing
pub mod Staging
pub mod Validation
pub mod Examples
pub mod Datasets
pub mod Users
