-- ===== src/Projects/Create/Atomic.antt =====
-- The creation of a project is all or nothing.
use mathlib.Core.Bool.{false≢true}
use code2cloud.Prelude.{
  are_distinct, String, Bool, ◌≡◌, refl, sym, ◌∙◌, ap, true, false, not, Option, none, some, List,
  [], ◌∷◌, ◌++◌, inl, inr, In, In-append_right, map, arith, Bool-cases, Option-cases, ◌==◌, eq_iff,
  length, nat_eq, or_else,
}
use code2cloud.Schema.{
  pending, production, manual, Project, EnvironmentVariable, Deployment, Domain, SystemConfig,
  GitAccount,
}
use code2cloud.Jobs.{rpush_build}
use code2cloud.Prisma.{Prisma}
use code2cloud.World.{
  World, Outcome, done, fail, thrown, transaction, pure, ◌>>=◌, ◌>>◌, require, guard, bad_request,
  Act,
}
use code2cloud.World.Laws.{guard_rule, require_rule}
use code2cloud.Github.{GithubApi, CommitData, get_latest_commit}
use code2cloud.Encryption.{Crypto}
use code2cloud.Url.{UrlConfig, generate_deployment_url}
use code2cloud.Deployments.{
  is_project_of, find_project, create_deployment, new_deployment, matching_account, installed,
}
use code2cloud.Projects.{ProjectView, find_one, view_of}
use code2cloud.Projects.Create.{
  EnvVarDto, CreateProjectDto, new_project, new_vars, check_new_project, job_of_new, make_project,
  create,
}

module _ ⦃prisma : Prisma⦄ ⦃crypto : Crypto⦄ (url : String) (dto : CreateProjectDto)
    (user_id installation_id : String) (commit : CommitData) (w : World) where
  -- The rows that the transaction adds.
  abbrev pub project_row : Project
  project_row =
      new_project (prisma.uuid (map (λ (p : Project). p.id) w.db.projects)) w.now user_id dto

  abbrev pub deployment_row : Deployment
  deployment_row =
      new_deployment (prisma.uuid (map (λ (d : Deployment). d.id) w.db.deployments)) w.now (record {
        project_id = project_row.id;
        initiator_id = user_id;
        deployment_url = some url;
        branch = dto.git_branch;
        commit = commit;
        region = prisma.find_first (λ (c : SystemConfig). c.user_id == user_id) w.db.configs;
        trigger = manual;
      })

  abbrev pub domain_row : Domain
  domain_row = record {
    id = prisma.uuid (map (λ (d : Domain). d.id) w.db.domains);
    name = url;
    status = pending;
    kind = production;
    error_text = none;
    project_id = project_row.id;
    created_at = w.now;
  }

  abbrev pub var_rows : List EnvironmentVariable
  var_rows =
      new_vars (map (λ (v : EnvironmentVariable). v.id) w.db.env_vars) project_row.id 0 dto.env_vars

  -- The world with the rows, the job not yet queued.
  abbrev pub with_rows : World
  with_rows = record w {
    db = record w.db {
      projects = w.db.projects ++ project_row ∷ [];
      env_vars = w.db.env_vars ++ var_rows;
      deployments = w.db.deployments ++ deployment_row ∷ [];
      domains = w.db.domains ++ domain_row ∷ [];
    };
  }

  abbrev pub made : World
  made = record with_rows {
    sent =
        w.sent
        ++ rpush_build (job_of_new url dto installation_id commit project_row deployment_row) ∷ [];
  }

  -- The database rejects a key that comes twice.
  abbrev with_project : World
  with_project = record w { db = record w.db { projects = w.db.projects ++ project_row ∷ [] } }

  make_twice :
      are_distinct (map (λ (v : EnvVarDto). v.key) dto.env_vars) ≡ false
      → make_project url dto user_id installation_id commit w
        ≡ fail (thrown "Unique constraint failed on the fields: (`projectId`,`key`)") with_project
  unfolding make_project
  make_twice twice = ground (arith, twice, prisma.create_lem (project_row ∷ []) w.db.projects)

  -- The address of the project has no row yet.
  abbrev pub is_free_address : Bool
  is_free_address = elim (prisma.find_first (λ (d : Domain). d.name == url) w.db.domains) [
    | none ↦ true
    | some _ ↦ false
  ]

  -- The database rejects an address that there is; the rows before it were written.
  abbrev with_deployment : World
  with_deployment = record w {
    db = record w.db {
      projects = w.db.projects ++ project_row ∷ [];
      env_vars = w.db.env_vars ++ var_rows;
      deployments = w.db.deployments ++ deployment_row ∷ [];
    };
  }

  make_taken :
      are_distinct (map (λ (v : EnvVarDto). v.key) dto.env_vars) ≡ true
      → is_free_address ≡ false
      → make_project url dto user_id installation_id commit w
        ≡ fail (thrown "Unique constraint failed on the fields: (`name`)") with_deployment
  unfolding make_project create_deployment
  make_taken distinct taken = ground (
    arith,
    prisma.create_lem (project_row ∷ []) w.db.projects,
    prisma.create_lem var_rows w.db.env_vars,
    prisma.create_lem (deployment_row ∷ []) w.db.deployments,
  )

  make_up :
      are_distinct (map (λ (v : EnvVarDto). v.key) dto.env_vars) ≡ true
      → is_free_address ≡ true
      → w.redis_up ≡ true
      → make_project url dto user_id installation_id commit w ≡ done project_row made
  unfolding make_project create_deployment
  make_up distinct free up = ground (
    arith,
    prisma.create_lem (project_row ∷ []) w.db.projects,
    prisma.create_lem var_rows w.db.env_vars,
    prisma.create_lem (deployment_row ∷ []) w.db.deployments,
    prisma.create_lem (domain_row ∷ []) w.db.domains,
  )

  make_down :
      are_distinct (map (λ (v : EnvVarDto). v.key) dto.env_vars) ≡ true
      → is_free_address ≡ true
      → w.redis_up ≡ false
      → make_project url dto user_id installation_id commit w
        ≡ fail (thrown "Redis connection error") with_rows
  unfolding make_project create_deployment
  make_down distinct free down = ground (
    arith,
    prisma.create_lem (project_row ∷ []) w.db.projects,
    prisma.create_lem var_rows w.db.env_vars,
    prisma.create_lem (deployment_row ∷ []) w.db.deployments,
    prisma.create_lem (domain_row ∷ []) w.db.domains,
  )

  same_project : is_project_of user_id project_row.id project_row ≡ true
  same_project = ground (arith, eq_iff project_row.id project_row.id, eq_iff user_id user_id)

  -- The new project is found for its user.
  find_made : (v : ProjectView) × (find_one project_row.id user_id made ≡ done v made)
  unfolding find_one find_project
  find_made =
      elim (Option-cases
        (prisma.find_first (is_project_of user_id project_row.id) made.db.projects)) [
          | inr (p, found) ↦ (view_of 5 made.db p, rw (found, require, ◌>>=◌))
          | inl missing ↦ absurd (
              false≢true (
                sym (
                  prisma.find_first_none _ _ project_row missing
                    (In-append_right project_row w.db.projects (project_row ∷ []) (inl refl)))
                ∙ same_project))
        ]

-- What the checks before the transaction have found.
abbrev pub IsNew : ⦃prisma : Prisma⦄ → String → CreateProjectDto → World → String → Type 0
IsNew ⦃prisma⦄ user_id dto w installation_id =
    ((p : Project) → In p w.db.projects → (p.name == dto.name) ≡ false)
    × (a : GitAccount) × (matching_account dto.git_repo_owner
          (prisma.find_many (λ (a : GitAccount). a.user_id == user_id) w.db.git_accounts)
        ≡ some a)
    × (installed a.installation_id ≡ true)
    × (installation_id ≡ or_else a.installation_id "")

abbrev pub NewOutcome :
    ⦃prisma : Prisma⦄ → String → CreateProjectDto → World → Outcome String → Type 0
NewOutcome user_id dto w (done i w') = IsNew user_id dto w i × (w' ≡ w)
NewOutcome user_id dto w (fail e w') = w' ≡ w

abbrev pub CreatedOutcome :
    ⦃prisma : Prisma⦄
    → ⦃crypto : Crypto⦄ → ⦃config : UrlConfig⦄ → String
    → CreateProjectDto
    → World
    → Outcome ProjectView
    → Type 0
CreatedOutcome user_id dto w (done v w') =
    (installation_id : String) × (commit : CommitData) × IsNew user_id dto w installation_id
    × (are_distinct (map (λ (v : EnvVarDto). v.key) dto.env_vars) ≡ true)
    × ((d : Domain) → In d w.db.domains → (d.name == generate_deployment_url dto.name) ≡ false)
    × (w.redis_up ≡ true)
    × (w' ≡ made (generate_deployment_url dto.name) dto user_id installation_id commit w)
CreatedOutcome user_id dto w (fail e w') = w' ≡ w

module _ ⦃prisma : Prisma⦄ ⦃crypto : Crypto⦄ ⦃github : GithubApi⦄ ⦃config : UrlConfig⦄
    (user_id : String) (dto : CreateProjectDto) (w : World) where
  nothing_found :
      {Row : Type 0} (p : Row → Bool) (t : List Row)
      → elim (prisma.find_first p t) [ none ↦ true | some _ ↦ false ] ≡ true
      → (r : Row) → In r t
      → p r ≡ false
  nothing_found p t free r here = elim (Option-cases (prisma.find_first p t)) [
    | inl missing ↦ prisma.find_first_none _ _ r missing here
    | inr (q, found) ↦
        absurd (false≢true (sym (ap (λ o. elim o [ none ↦ true | some _ ↦ false ]) found) ∙ free))
  ]

  check_new_project_lem : NewOutcome user_id dto w (check_new_project user_id dto w)
  unfolding check_new_project
  check_new_project_lem =
      guard_rule (NewOutcome user_id dto w) _ w _ _ (λ _. refl)
        (λ free.
          guard_rule (NewOutcome user_id dto w) (bad_request "No linked GitHub accounts found.") w
            (not (nat_eq (length accounts) 0))
            (with_account (matching_account dto.git_repo_owner accounts)) (λ _. refl)
            (λ linked.
              require_rule (NewOutcome user_id dto w) (bad_request "no account") w
                (matching_account dto.git_repo_owner accounts) with_installed (λ _. refl)
                (λ a found.
                  guard_rule (NewOutcome user_id dto w)
                    (bad_request "Selected GitHub account is not installed.") w
                    (installed a.installation_id) (pure (or_else a.installation_id "")) (λ _. refl)
                    (λ fine. ((nothing_found _ w.db.projects free, a, found, fine, refl), refl)))))
    where
      accounts : List GitAccount
      accounts = prisma.find_many (λ (a : GitAccount). a.user_id == user_id) w.db.git_accounts

      with_installed : GitAccount → Act String
      with_installed a =
          guard (installed a.installation_id)
            (bad_request "Selected GitHub account is not installed.")
          >> pure (or_else a.installation_id "")

      with_account : Option GitAccount → Act String
      with_account o = require o (bad_request "no account") >>= with_installed

  create_of_check :
      (o : Outcome String)
      → check_new_project user_id dto w ≡ o
      → NewOutcome user_id dto w o
      → CreatedOutcome user_id dto w (create user_id dto w)
  unfolding create
  create_of_check (fail e w') checked same = rw (checked, ◌>>=◌) same
  create_of_check (done i w') checked (fine, same) =
      elim (Bool-cases (are_distinct (map (λ (v : EnvVarDto). v.key) dto.env_vars))) [
        | inr twice ↦
            rw (once, ◌>>=◌)
              (rw (transaction, ◌>>=◌, make_twice url dto user_id i commit w twice)
                (ap (λ d. record w { db = d })
                  (prisma.rollback_lem w.db (with_project url dto user_id i commit w).db)))
        | inl distinct ↦ elim (Bool-cases (is_free_address url dto user_id i commit w)) [
          | inr taken ↦
              rw (once, ◌>>=◌)
                (rw (transaction, ◌>>=◌, make_taken url dto user_id i commit w distinct taken)
                  (ap (λ d. record w { db = d })
                    (prisma.rollback_lem w.db (with_deployment url dto user_id i commit w).db)))
          | inl free ↦ elim (Bool-cases w.redis_up) [
            | inl up ↦ succeeds distinct free up (find_made url dto user_id i commit w)
            | inr down ↦
                rw (once, ◌>>=◌)
                  (rw (transaction, ◌>>=◌, make_down url dto user_id i commit w distinct free down)
                    (ap (λ d. record w { db = d })
                      (prisma.rollback_lem w.db (with_rows url dto user_id i commit w).db)))
          ]
        ]
      ]
    where
      url : String
      url = generate_deployment_url dto.name

      commit : CommitData
      commit = get_latest_commit i dto.git_repo_owner dto.git_repo_name dto.git_branch

      once : check_new_project user_id dto w ≡ done i w
      once = checked ∙ ap (done i) same

      succeeds :
          are_distinct (map (λ (v : EnvVarDto). v.key) dto.env_vars) ≡ true
          → is_free_address url dto user_id i commit w ≡ true
          → w.redis_up ≡ true
          → ((v : ProjectView) × (find_one
                  (project_row url dto user_id i commit w).id
                  user_id
                  (made url dto user_id i commit w)
                ≡ done v (made url dto user_id i commit w)))
          → CreatedOutcome user_id dto w (create user_id dto w)
      succeeds distinct free up (v, found) =
          rw (once, ◌>>=◌)
            (rw (transaction, ◌>>=◌, make_up url dto user_id i commit w distinct free up)
              (rw found (i, commit, fine, distinct, nothing_found _ w.db.domains free, up, refl)))

  -- `create` makes the project with its variables, whose keys differ, its deployment and its domain
  -- and queues the build, under a name and an address that were free and with an installed account
  -- of the owner; or it throws and leaves everything as it was, a key that comes twice, an address
  -- that is taken or a job that could not be queued included.
  pub create-all_or_nothing : CreatedOutcome user_id dto w (create user_id dto w)
  create-all_or_nothing =
      create_of_check (check_new_project user_id dto w) refl check_new_project_lem
