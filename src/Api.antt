-- ===== src/Api.antt =====
-- The controllers of apps/api/src: which requests reach which method of the services.
pub mod Calls
pub mod Entry
