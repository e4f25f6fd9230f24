-- ===== src/GithubSignIn.antt =====
-- Signing in by GitHub: apps/api/src/git/git.service.ts, `exchangeCodeForUser`, and the callback of
-- apps/api/src/auth/auth.controller.ts.
pub mod Exchange
pub mod Redirects
pub mod Landing
pub mod Google
