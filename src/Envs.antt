-- ===== src/Envs.antt =====
-- apps/api/src/envs/env-vars.service.ts: the variables of a project.
pub mod Save
pub mod ReadBack
use code2cloud.Prelude.{
  are_distinct, ℕ, suc, String, Bool, true, false, not, ◌&&◌, any, List, [], ◌∷◌, length, map, ◌==◌,
}
use code2cloud.Schema.{EnvironmentType, EnvironmentVariable, Project}
use code2cloud.Prisma.{Prisma}
use code2cloud.World.{
  World, Act, thrown, guard, require, pure, ◌>>=◌, ◌>>◌, get, transaction, set_projects,
  set_env_vars,
}
use code2cloud.Encryption.{Crypto, encrypt}
use code2cloud.Deployments.{find_project}
use code2cloud.Projects.{decrypted_vars}

-- One of the variables of SaveEnvVarsDto.
pub record SavedVar : Type 0 where
  pub key : String
  pub value : String
  pub targets : List EnvironmentType

abbrev pub is_of_project : String → EnvironmentVariable → Bool
is_of_project project_id v = v.project_id == project_id

abbrev pub keys_of : List SavedVar → List String
keys_of vars = map (λ (v : SavedVar). v.key) vars

module _ ⦃prisma : Prisma⦄ ⦃crypto : Crypto⦄ where
  -- Encrypted rows; the n-th draw is that of the first, and each id differs from those before.
  unfoldable pub saved_rows : List String → String → ℕ → List SavedVar → List EnvironmentVariable
  saved_rows ids project_id n [] = []
  saved_rows ids project_id n (v ∷ vs) =
      let id = prisma.uuid ids in
      record {
        id = id;
        key = v.key;
        value = encrypt n v.value;
        targets = v.targets;
        project_id = project_id;
      }
      ∷ saved_rows (id ∷ ids) project_id (suc n) vs

  -- The body of the transaction: everything is deleted, and everything is inserted, which the
  -- database rejects if a key comes twice.
  unfoldable pub replace_vars : String → List SavedVar → Act ℕ
  replace_vars project_id vars = do
    w ← get
    let kept = prisma.delete_where (is_of_project project_id) w.db.env_vars
    let ids = map (λ (v : EnvironmentVariable). v.id) kept
    set_env_vars kept
    guard (are_distinct (keys_of vars))
        (thrown "Unique constraint failed on the fields: (`projectId`,`key`)")
    set_env_vars (prisma.create (saved_rows ids project_id 0 vars) kept)
    set_projects (
        prisma.update (λ (p : Project). p.id == project_id)
          (λ p. record p { config_changed = true; updated_at = w.now }) w.db.projects)
    pure (length vars)

  unfoldable pub save_all : String → String → List SavedVar → Act ℕ
  save_all user_id project_id vars = do
    _ ← find_project user_id project_id
    transaction (replace_vars project_id vars)

  unfoldable pub find_all : String → String → Act (List EnvironmentVariable)
  find_all user_id project_id = do
    _ ← find_project user_id project_id
    w ← get
    let rows =
        prisma.order_text (λ (v : EnvironmentVariable). v.key)
          (prisma.find_many (is_of_project project_id) w.db.env_vars)
    require (decrypted_vars rows) (thrown "decrypt")
