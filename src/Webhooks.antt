-- ===== src/Webhooks.antt =====
-- apps/api/src/webhooks/webhooks.service.ts: WebhooksService.
pub mod Signature
pub mod Branch
pub mod Trigger
pub mod Push
use Prim.Native.Char.{code}
use mathlib.Core.Option
use code2cloud.Prelude.{
  ℕ, String, Bool, true, false, not, Option, none, some, List, [], ◌∷◌, map, head?, take, ◌==◌,
  ◌&&◌, nat_eq, length, if◌then◌else◌, Dict, put, non_empty, or_else,
}
use code2cloud.Schema.{
  canceled, webhook, Project, EnvironmentVariable, Deployment, Domain, SystemConfig, is_in_progress,
  is_ready, is_active,
}
use code2cloud.Jobs.{BuildJobData, number}
use code2cloud.Prisma.{Prisma}
use code2cloud.World.{
  Database, World, Act, thrown, pure, ◌>>=◌, ◌>>◌, get, require, when, attempt, for_each,
  set_deployments,
}
use code2cloud.Encryption.{Crypto, decrypt}
use code2cloud.Queues.{add_build_job, publish_cancel_signal}
use code2cloud.Deployments.{has_id, create_deployment, build_config_of, with_python}
use code2cloud.Deployments.Trigger.{domains_of}
use code2cloud.Webhooks.Branch.{replace_first}

-- The parts of PushEventPayload that the handler reads.
pub record HeadCommit : Type 0 where
  pub message : String
  pub author_name : String

pub record PushEventPayload : Type 0 where
  pub ref : String
  pub after : String
  pub deleted : Bool
  pub repo_owner : String
  pub repo_name : String
  pub sender_login : String
  pub installation_id : Option ℕ
  pub head_commit : Option HeadCommit

-- A project with what the query of `handlePushEvent` includes.
pub record ProjectWithRelations : Type 0 where
  pub project : Project
  pub env_vars : List EnvironmentVariable
  pub domains : List Domain
  pub deployments : List Deployment

pub record TriggerOptions : Type 0 where
  pub branch : String
  pub commit_hash : String
  pub installation_id : ℕ
  pub commit_message : String
  pub commit_author : String

abbrev pub is_current : String → Deployment → Bool
is_current project_id d = (d.project_id == project_id) && is_active d.status

abbrev pub is_linked : String → String → String → Project → Bool
is_linked owner name branch p =
    (p.git_repo_owner == owner) && ((p.git_repo_name == name) && (p.git_branch == branch))

abbrev pub previous_of : Option Deployment → Option String
previous_of none = none
previous_of (some d) = if is_ready d.status then some d.id else none

module _ ⦃prisma : Prisma⦄ where
  unfoldable pub relations_of : Database → Project → ProjectWithRelations
  relations_of db p = record {
    project = p;
    env_vars = prisma.find_many (λ (v : EnvironmentVariable). v.project_id == p.id) db.env_vars;
    domains = domains_of p db.domains;
    deployments = take 1 (
        prisma.order_desc (λ (d : Deployment). d.started_at)
          (prisma.find_many (is_current p.id) db.deployments));
  }

  -- An in-progress deployment is signalled, and its row is marked.
  unfoldable pub cancel_current : Option Deployment → Act (Unit {0})
  cancel_current none = pure tt
  cancel_current (some d) = when (is_in_progress d.status) do
    publish_cancel_signal d.id
    w ← get
    set_deployments
        (prisma.update (has_id d.id) (λ r. record r { status = canceled }) w.db.deployments)

module _ ⦃crypto : Crypto⦄ where
  -- Every variable is decrypted, whatever its targets; `none` is a throw.
  unfoldable pub decrypted_env : Dict String → List EnvironmentVariable → Option (Dict String)
  decrypted_env acc [] = some acc
  decrypted_env acc (v ∷ vs) = elim (decrypt v.value) [
    | none ↦ none
    | some value ↦ decrypted_env (put v.key value acc) vs
  ]

module _ ⦃prisma : Prisma⦄ ⦃crypto : Crypto⦄ where
  unfoldable pub job_of :
      ProjectWithRelations → TriggerOptions → Dict String → Deployment → BuildJobData
  job_of r opts env d = record {
    deployment_id = d.id;
    project_id = r.project.id;
    project_name = r.project.name;
    git_url = r.project.git_clone_url;
    installation_id = number opts.installation_id;
    branch = opts.branch;
    commit_hash = opts.commit_hash;
    root_directory = non_empty (some r.project.root_directory);
    build_config = build_config_of r.project;
    domains = map (λ (d : Domain). d.name) r.domains;
    env_vars = with_python r.project.python_version env;
    previous_deployment_id = previous_of (head? r.deployments);
  }

  -- The deployment is created and its job is queued.
  unfoldable pub start_deployment :
      ProjectWithRelations → TriggerOptions → Dict String → Act (Unit {0})
  start_deployment r opts env = do
    w ← get
    d ← create_deployment (record {
      project_id = r.project.id;
      initiator_id = r.project.user_id;
      deployment_url = Option.map (λ (d : Domain). d.name) (head? r.domains);
      branch = opts.branch;
      commit = record {
        sha = opts.commit_hash;
        message = opts.commit_message;
        author = some opts.commit_author;
      };
      region =
          prisma.find_first (λ (c : SystemConfig). c.user_id == r.project.user_id) w.db.configs;
      trigger = webhook;
    })
    add_build_job (job_of r opts env d)

  unfoldable pub trigger_deployment : ProjectWithRelations → TriggerOptions → Act (Unit {0})
  trigger_deployment r opts = do
    cancel_current (head? r.deployments)
    env ← require (decrypted_env [] r.env_vars) (thrown "decrypt")
    start_deployment r opts env

  -- One round of the loop over the linked projects.
  unfoldable pub push_to_project : TriggerOptions → ProjectWithRelations → Act (Unit {0})
  push_to_project opts r = when r.project.auto_deploy (attempt (trigger_deployment r opts))

  abbrev pub options_of : PushEventPayload → String → ℕ → TriggerOptions
  options_of e branch installation_id = record {
    branch = branch;
    commit_hash = e.after;
    installation_id = installation_id;
    commit_message = or_else (Option.map (λ (c : HeadCommit). c.message) e.head_commit) "";
    commit_author =
        or_else (Option.map (λ (c : HeadCommit). c.author_name) e.head_commit) e.sender_login;
  }

  unfoldable pub push_to : PushEventPayload → ℕ → Act (Unit {0})
  push_to e installation_id = do
    let branch = replace_first "refs/heads/" e.ref
    w ← get
    let projects = prisma.find_many (is_linked e.repo_owner e.repo_name branch) w.db.projects
    for_each (map (relations_of w.db) projects)
        (push_to_project (options_of e branch installation_id))

  abbrev pub with_installation : Option ℕ → (ℕ → Act (Unit {0})) → Act (Unit {0})
  with_installation none k = pure tt
  with_installation (some n) k = when (not (nat_eq n 0)) (k n)

  unfoldable pub handle_push_event : PushEventPayload → Act (Unit {0})
  handle_push_event e = when (not e.deleted) (with_installation e.installation_id (push_to e))
