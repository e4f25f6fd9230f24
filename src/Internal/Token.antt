-- ===== src/Internal/Token.antt =====
-- apps/api/src/internal/internal.service.ts: getInstallationToken, for the worker's clones.
use code2cloud.Prelude.{ℕ, ◌+◌, ◌*◌, String}
use code2cloud.World.{Act, pure, ◌>>=◌, get}
use code2cloud.Repositories.Service
use code2cloud.Repositories.Service.{GithubFiles}

-- `expires_at` is the time that is written as an ISO text.
pub record InstallationToken : Type 0 where
  pub token : String
  pub expires_at : ℕ

unfoldable pub get_installation_token : ⦃github : GithubFiles⦄ → String → Act InstallationToken
get_installation_token installation_id = do
  token ← Service.get_installation_token installation_id
  w ← get
  pure (record { token = token; expires_at = w.now + 60 * 60 * 1000 })
