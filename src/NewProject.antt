-- ===== src/NewProject.antt =====
-- apps/web/components/project/NewProjectDialog.tsx: from a repository to a new project.
pub mod Presets
pub mod Form
pub mod EnvFile
pub mod Agreement
pub mod Payload
pub mod Quotes
