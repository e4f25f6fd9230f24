-- ===== src/Internal.antt =====
-- apps/api/src/internal/internal.service.ts: InternalService, which the worker calls. Its mails,
-- messages and settings are in the modules below.
pub mod Report
pub mod Expiry
pub mod Retention
pub mod Notify
pub mod Settings
pub mod Token
pub mod Dates
use mathlib.Core.Option
use code2cloud.Prelude.{
  ℕ, suc, leb, ◌+◌, ◌*◌, String, Bool, true, false, not, Option, none, some, List, [], ◌∷◌, ◌++◌,
  map, any, length, ◌==◌, ◌&&◌, ◌||◌, nat_eq, ltb, truthy, if◌then◌else◌,
}
use code2cloud.Prelude.Int.{ℤ, pos, negsuc, floor_div_sub}
use code2cloud.Schema.{
  DeploymentStatus, canceled, DomainDnsStatus, LogSource, Project, Deployment, Domain, SystemConfig,
  LogEntry, is_ready, is_terminal, is_pending,
}
use code2cloud.Prisma.{Prisma}
use code2cloud.World.{
  Database, World, Act, Error, done, fail, guard, thrown, not_found, pure, ◌>>=◌, ◌>>◌, get,
  require, set_deployments, set_projects, set_domains, set_logs,
}
use code2cloud.Deployments.{has_id, project_of_user, update_deployment, source_matches}

-- UpdateDeploymentStatusDto, CreateLogsDto (with parsed times) and UpdateDomainStatusDto.
pub record UpdateDeploymentStatusDto : Type 0 where
  pub status : DeploymentStatus
  pub container_image : Option String
  pub deployment_url : Option String

pub record LogEntryDto : Type 0 where
  pub source : LogSource
  pub message : String
  pub timestamp : Option ℕ

pub record UpdateDomainStatusDto : Type 0 where
  pub status : DomainDnsStatus
  pub error_text : Option String

-- A given value that is not empty replaces the column.
abbrev pub replaced : Option String → Option String → Option String
replaced given old = if truthy given then given else old

-- The columns that a report of the worker writes.
abbrev pub report_on : ℕ → UpdateDeploymentStatusDto → ℕ → Deployment → Deployment
report_on now dto started_at r = record r {
  status = dto.status;
  is_success = is_ready dto.status || r.is_success;
  container_image = replaced dto.container_image r.container_image;
  deployment_url = replaced dto.deployment_url r.deployment_url;
  finished_at = if is_terminal dto.status then some now else r.finished_at;
  duration =
      if is_terminal dto.status then some (floor_div_sub now started_at 1000) else r.duration;
}

-- New rows with ids that differ from those given.
unfoldable pub new_logs :
    ⦃prisma : Prisma⦄ → List String → String → ℕ → List LogEntryDto → List LogEntry
new_logs ids deployment_id now [] = []
new_logs ⦃prisma⦄ ids deployment_id now (l ∷ ls) =
    let id = prisma.uuid ids in
    record {
      id = id;
      deployment_id = deployment_id;
      source = l.source;
      timestamp = Option.get_or l.timestamp now;
      message = l.message;
    }
    ∷ new_logs (id ∷ ids) deployment_id now ls

module _ ⦃prisma : Prisma⦄ where
  unfoldable pub find_deployment : String → Act Deployment
  find_deployment id = do
    w ← get
    require (prisma.find_first (has_id id) w.db.deployments) (not_found "Deployment not found")

  unfoldable pub update_deployment_status : String → UpdateDeploymentStatusDto → Act Deployment
  update_deployment_status id dto = do
    d ← find_deployment id
    w ← get
    update_deployment d (report_on w.now dto d.started_at)

  -- The number of rows that were added.
  unfoldable pub create_logs : String → List LogEntryDto → Act ℕ
  create_logs deployment_id logs = do
    d ← find_deployment deployment_id
    w ← get
    let ids = map (λ (l : LogEntry). l.id) w.db.logs
    set_logs (prisma.create (new_logs ids deployment_id w.now logs) w.db.logs)
    pure (length logs)

  unfoldable pub get_logs : String → Option LogSource → Act (List LogEntry)
  get_logs deployment_id source = do
    d ← find_deployment deployment_id
    w ← get
    pure (
        prisma.order_asc (λ (l : LogEntry). l.timestamp)
          (prisma.find_many
            (λ (l : LogEntry). (l.deployment_id == deployment_id) && source_matches source l.source)
            w.db.logs))

  -- The deployment, whose image and project the answer names.
  unfoldable pub delete_deployment_resources : String → Act Deployment
  delete_deployment_resources id = do
    d ← find_deployment id
    w ← get
    _ ← update_deployment d (λ r. record r { status = canceled; finished_at = some w.now })
    pure d

  unfoldable pub update_project_status : String → DomainDnsStatus → Act Project
  update_project_status id status = do
    w ← get
    p ←
        require (prisma.find_first (λ (p : Project). p.id == id) w.db.projects)
          (not_found "Project not found")
    set_projects (
        prisma.update (λ (p : Project). p.id == id) (λ p. record p { online_status = status })
          w.db.projects)
    pure (record p { online_status = status })

  -- `dto.error || null` if an error is given.
  abbrev cleared : Option String → Option String → Option String
  cleared none old = old
  cleared (some e) old = if e == "" then none else some e

  unfoldable pub update_domain_status : String → UpdateDomainStatusDto → Act Domain
  update_domain_status id dto = do
    w ← get
    d ←
        require (prisma.find_first (λ (d : Domain). d.id == id) w.db.domains)
          (not_found "Domain not found")
    let change = λ (r : Domain). record r {
      status = dto.status;
      error_text = cleared dto.error_text r.error_text;
    }
    set_domains (prisma.update (λ (d : Domain). d.id == id) change w.db.domains)
    pure (change d)

  unfoldable pub get_pending_domains : Act (List Domain)
  get_pending_domains w =
      pure
        (prisma.order_asc (λ (d : Domain). d.created_at)
          (prisma.find_many (λ (d : Domain). is_pending d.status) w.db.domains))
        w

-- `new Date(Date.now() - amount * unit)`: dates reach 8640000000000000 milliseconds to both sides.
abbrev pub is_valid_date : ℕ → ℤ → ℕ → Bool
is_valid_date now (pos n) unit =
    leb (n * unit) (now + 8640000000000000) && leb now (n * unit + 8640000000000000)
is_valid_date now (negsuc n) unit = leb (now + suc n * unit) 8640000000000000

-- The time is before that date.
abbrev pub is_before : ℕ → ℕ → ℤ → ℕ → Bool
is_before time now (pos n) unit = ltb (time + n * unit) now
is_before time now (negsuc n) unit = ltb time (now + suc n * unit)

abbrev pub minute : ℕ
minute = 60000

abbrev pub day : ℕ
day = 86400000

-- What the client throws on a date that is none.
abbrev pub invalid_date : Error
invalid_date = thrown "Provided Date object is invalid"

-- A READY deployment of the user that started before its time to live.
abbrev pub is_expired : Database → ℕ → SystemConfig → Deployment → Bool
is_expired db now c d =
    project_of_user db c.user_id d.project_id
    && (is_ready d.status && is_before d.started_at now c.global_ttl_minutes minute)

-- What the worker is told of an expired deployment: the row, and the limit in minutes.
pub record ExpiredDeployment : Type 0 where
  pub deployment : Deployment
  pub ttl_minutes : ℤ

-- A log entry of a deployment of a project of the user.
abbrev pub log_of_user : Database → String → LogEntry → Bool
log_of_user db user_id l =
    any (λ (d : Deployment). (d.id == l.deployment_id) && project_of_user db user_id d.project_id)
      db.deployments

abbrev pub is_stale : Database → ℕ → SystemConfig → LogEntry → Bool
is_stale db now c l =
    log_of_user db c.user_id l && is_before l.timestamp now c.log_retention_days day

-- `!config.logRetentionDays`
abbrev pub is_zero : ℤ → Bool
is_zero (pos n) = nat_eq n 0
is_zero (negsuc n) = false

module _ ⦃prisma : Prisma⦄ where
  -- The loop of `getExpiredDeployments` over the settings.
  unfoldable pub expired_in : List SystemConfig → Act (List ExpiredDeployment)
  expired_in [] = pure []
  expired_in (c ∷ cs) =
      let rest = expired_in cs in
      do
        w ← get
        guard (is_valid_date w.now c.global_ttl_minutes minute) invalid_date
        let found = prisma.find_many (is_expired w.db w.now c) w.db.deployments
        later ← rest
        pure (
            map (λ d. record { deployment = d; ttl_minutes = c.global_ttl_minutes }) found ++ later)

  unfoldable pub get_expired_deployments : Act (List ExpiredDeployment)
  get_expired_deployments = do w ← get; expired_in w.db.configs

  -- One round of the loop of `cleanupLogs`: the number deleted.
  unfoldable pub cleanup_of : SystemConfig → Act ℕ
  cleanup_of c w =
      if is_zero c.log_retention_days
      then done 0 w
      else if is_valid_date w.now c.log_retention_days day
      then done (length (prisma.find_many (is_stale w.db w.now c) w.db.logs)) (record w {
        db = record w.db { logs = prisma.delete_where (is_stale w.db w.now c) w.db.logs };
      })
      else fail invalid_date w

  -- The loop over the settings; a round that throws leaves what earlier ones deleted.
  unfoldable pub cleanup_from : List SystemConfig → ℕ → Act ℕ
  cleanup_from [] total = pure total
  cleanup_from (c ∷ cs) total = cleanup_of c >>= λ n. cleanup_from cs (total + n)

  unfoldable pub cleanup_logs : Act ℕ
  cleanup_logs = do w ← get; cleanup_from w.db.configs 0
