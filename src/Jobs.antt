-- ===== src/Jobs.antt =====
-- The lifecycle of reconciliation jobs: persistence/repositories/job.py (the repository and its
-- emulation of the worker functions), and the PostgreSQL functions of
-- migrations/versions/0003_reconciliation_jobs_and_storage.py.
pub mod Defs
pub mod Repository
pub mod Functions
pub mod Health
pub mod Rows
pub mod Commits
pub mod Fencing
pub mod Final
pub mod Emulation
mod Tests
