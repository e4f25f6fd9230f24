-- ===== src/Repositories.antt =====
-- apps/api/src/git: what a user may see of the repositories of an installation.
pub mod Service
pub mod Routes
pub mod Tree
pub mod Access
