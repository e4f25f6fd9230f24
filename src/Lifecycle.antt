-- ===== src/Lifecycle.antt =====
-- The deployments of a project over a sequence of requests.
pub mod OneLive
pub mod Requests
pub mod Reach
