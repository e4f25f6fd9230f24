-- ===== src/EnvEditor.antt =====
-- apps/web/components/project/EnvVarsPanel.tsx: the editor of a project's environment variables.
pub mod Line
pub mod RoundTrip
pub mod State
pub mod Changes
