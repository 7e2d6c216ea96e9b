-- ===== src/JobPosition.antt =====
-- internal/jobposition: the job positions that an employer publishes, edits and deletes.
pub mod Models
pub mod Repo
pub mod Service
