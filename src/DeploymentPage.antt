-- ===== src/DeploymentPage.antt =====
-- apps/web/app/dashboard/deployments/[id]/page.tsx: the page of one deployment.
pub mod Pipeline
pub mod Controls
pub mod Terminal
