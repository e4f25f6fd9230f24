-- ===== src/Deployments/Trigger/Steps.antt =====
-- The steps of `create`, and the outcomes of the whole.
use mathlib.Core.Option
use code2cloud.Prelude.{
  String, ◌≡◌, refl, ap, ◌∙◌, true, false, not, [], ◌∷◌, ◌++◌, ◌⊎◌, inl, inr, In, map, head?,
  length, nat_eq, arith, not-true, Bool-cases, ◌==◌,
}
use code2cloud.Schema.{manual, GitAccount, Project, Deployment, Domain, SystemConfig}
use code2cloud.Jobs.{rpush_build}
use code2cloud.Prisma.{Prisma}
use code2cloud.World.{◌>>=◌, World, Outcome, done, fail, thrown}
use code2cloud.World.Laws.{guard_rule, require_rule}
use code2cloud.Github.{GithubApi, CommitData, get_latest_commit}
use code2cloud.Encryption.{Crypto}
use code2cloud.Deployments.{
  is_project_of, find_project, create_deployment, new_deployment, matching_account, installed,
}
use code2cloud.Deployments.Trigger.{
  domains_of, latest_deployment, is_busy, touch_project, record_deployment, check_create, job_of,
  create,
}

module _ ⦃prisma : Prisma⦄ where
  -- The row that `create` adds for a project.
  abbrev pub manual_row : World → String → Project → CommitData → Deployment
  manual_row w user_id p commit =
      new_deployment (prisma.uuid (map (λ (d : Deployment). d.id) w.db.deployments)) w.now (record {
        project_id = p.id;
        initiator_id = user_id;
        deployment_url = Option.map (λ (d : Domain). d.name) (head? (domains_of p w.db.domains));
        branch = p.git_branch;
        commit = commit;
        region = prisma.find_first (λ (c : SystemConfig). c.user_id == user_id) w.db.configs;
        trigger = manual;
      })

  -- The world after the transaction of `create`.
  abbrev pub recorded : World → String → Project → CommitData → World
  recorded w user_id p commit = record w {
    db = record w.db {
      deployments = w.db.deployments ++ manual_row w user_id p commit ∷ [];
      projects =
          prisma.update (λ (x : Project). x.id == p.id)
            (λ x. record x { config_changed = false; updated_at = w.now }) w.db.projects;
    };
  }

  pub record_deployment-eq-done :
      (user_id : String) (p : Project) (commit : CommitData) (w : World)
      → record_deployment user_id p commit w
        ≡ done (manual_row w user_id p commit) (recorded w user_id p commit)
  unfolding record_deployment create_deployment touch_project
  record_deployment-eq-done user_id p commit w =
      ground (arith, prisma.create_lem (manual_row w user_id p commit ∷ []) w.db.deployments)

  -- A project that a user may deploy: it is the user's, and its latest deployment is not in
  -- progress.
  abbrev pub IsDeployable : String → String → World → Project → Type 0
  IsDeployable user_id project_id w p =
      (is_project_of user_id project_id p ≡ true)
      × In p w.db.projects
      × (is_busy (latest_deployment project_id w.db.deployments) ≡ false)

  -- What the checks may answer: neither answer writes.
  abbrev pub CheckOutcome : String → String → World → Outcome (Project × String) → Type 0
  CheckOutcome user_id project_id w (done (p, installation_id) w') =
      IsDeployable user_id project_id w p × (w' ≡ w)
  CheckOutcome user_id project_id w (fail e w') = w' ≡ w

  pub check_create_lem :
      (user_id project_id : String) (w : World)
      → CheckOutcome user_id project_id w (check_create user_id project_id w)
  unfolding check_create find_project
  check_create_lem user_id project_id w =
      let P = CheckOutcome user_id project_id w in
      let accounts =
        prisma.find_many (λ (a : GitAccount). a.user_id == user_id) w.db.git_accounts in
      require_rule P _ w (prisma.find_first (is_project_of user_id project_id) w.db.projects) _
        (λ _. refl)
        (λ p found.
          guard_rule P _ w (not (nat_eq (length accounts) 0)) _ (λ _. refl)
            (λ _.
              guard_rule P _ w (not (is_busy (latest_deployment project_id w.db.deployments))) _
                (λ _. refl)
                (λ idle.
                  require_rule P _ w (matching_account p.git_repo_owner accounts) _ (λ _. refl)
                    (λ account _.
                      guard_rule P _ w (installed account.installation_id) _ (λ _. refl)
                        (λ _.
                          let (mine, member) = prisma.find_first_some _ _ _ found in
                          ((mine, member, not-true _ idle), refl))))))

-- What `create` may answer. An answer is the row of a deployable project, added with its job
-- queued; an exception leaves the world as it was, or Redis is down and the row stays.
abbrev pub CreateOutcome :
    ⦃prisma : Prisma⦄ ⦃crypto : Crypto⦄ ⦃github : GithubApi⦄
    → String
    → String
    → World
    → Outcome Deployment
    → Type 0
CreateOutcome user_id project_id w (done d w') =
    (p : Project) × (commit : CommitData) × (installation_id : String) × IsDeployable user_id
      project_id w p
    × (d ≡ manual_row w user_id p commit)
    × (w' ≡ record (recorded w user_id p commit) {
      sent = w.sent ++ rpush_build (job_of w p installation_id commit d) ∷ [];
    })
CreateOutcome user_id project_id w (fail e w') =
    (w' ≡ w)
    ⊎ ((p : Project) × (commit : CommitData) × IsDeployable user_id project_id w p
        × (w.redis_up ≡ false)
        × (w' ≡ recorded w user_id p commit))

module _ ⦃prisma : Prisma⦄ ⦃crypto : Crypto⦄ ⦃github : GithubApi⦄ (user_id project_id : String)
    (w : World) where
  module _ (p : Project) (installation_id : String)
      (checked : check_create user_id project_id w ≡ done (p, installation_id) w) where
    abbrev head_commit : CommitData
    head_commit = get_latest_commit installation_id p.git_repo_owner p.git_repo_name p.git_branch

    create_up :
        w.redis_up ≡ true
        → create user_id project_id w
          ≡ done (manual_row w user_id p head_commit) (record (recorded w user_id p head_commit) {
            sent =
                w.sent
                ++ rpush_build
                    (job_of w p installation_id head_commit (manual_row w user_id p head_commit))
                  ∷ [];
          })
    unfolding create
    create_up up =
        rw (checked, ◌>>=◌)
          (rw (record_deployment-eq-done user_id p head_commit w, ◌>>=◌) (ground arith))

    create_down :
        w.redis_up ≡ false
        → create user_id project_id w
          ≡ fail (thrown "Redis connection error") (recorded w user_id p head_commit)
    unfolding create
    create_down down =
        rw (checked, ◌>>=◌)
          (rw (record_deployment-eq-done user_id p head_commit w, ◌>>=◌) (ground arith))

    create_checked :
        IsDeployable user_id project_id w p
        → CreateOutcome user_id project_id w (create user_id project_id w)
    create_checked fine = elim (Bool-cases w.redis_up) [
      | inl up ↦ rw (create_up up) (p, head_commit, installation_id, fine, refl, refl)
      | inr down ↦ rw (create_down down) (inr (p, head_commit, fine, down, refl))
    ]

  create_of_check :
      (o : Outcome (Project × String))
      → check_create user_id project_id w ≡ o
      → CheckOutcome user_id project_id w o
      → CreateOutcome user_id project_id w (create user_id project_id w)
  unfolding create
  create_of_check (fail e w') checked same = rw (checked, ◌>>=◌) (inl same)
  create_of_check (done (p, installation_id) w') checked (fine, same) =
      create_checked p installation_id (checked ∙ ap (done (p, installation_id)) same) fine

  -- `create` adds a deployment only to a project of the user whose latest deployment is not in
  -- progress: one queued row, with its job queued after it. When it throws, the world is as before,
  -- or Redis is down and the queued row stays although no job was sent.
  pub create_lem : CreateOutcome user_id project_id w (create user_id project_id w)
  create_lem =
      create_of_check (check_create user_id project_id w) refl
        (check_create_lem user_id project_id w)
