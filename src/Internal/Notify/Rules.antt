-- ===== src/Internal/Notify/Rules.antt =====
-- When a mail or a message is sent.
use mathlib.Core.Option
use mathlib.Core.Bool.{false≢true}
use code2cloud.Prelude.{
  String, ◌≡◌, ◌≢◌, refl, ap, sym, ◌∙◌, eq_iff, inl, inr, or_else, true, Option, none, some, List,
  [], ◌∷◌, ◌++◌, In, All, All-append, Bool-cases, ◌==◌, ◌&&◌, if◌then◌else◌, and_left, and_right,
}
use code2cloud.Schema.{
  DeploymentStatus, queued, building, deploying, ready, failed, canceled, expired, superseded, User,
  Project, Deployment, SystemConfig, is_ready, is_failed,
}
use code2cloud.Jobs.{
  Command, rpush_build, lpush_cleanup, set_cancel, post_slack, mail_success, mail_failure,
}
use code2cloud.Prisma.{Prisma}
use code2cloud.World.{Database, World, Outcome, done, fail}
use code2cloud.World.Laws.{require_rule}
use code2cloud.Encryption.{Crypto, decrypt}
use code2cloud.Deployments.{has_id}
use code2cloud.Internal.{find_deployment}
use code2cloud.Internal.Settings.{clear_webhook}
use code2cloud.Internal.Notify.{
  DeploymentNotificationDto, mail_commands, slack_commands, initiator_of,
  send_deployment_notification,
}

-- The deployment that a notification is about, and its project.
pub record IsAbout (db : Database) (id : String) (d : Deployment) (p : Project) : Type 0 where
  pub stored : In d db.deployments
  pub named : d.id ≡ id
  pub project : In p db.projects
  pub of_project : p.id ≡ d.project_id

-- Settings of the project's owner for which a test holds.
abbrev pub Wants : Database → Project → (SystemConfig → Type 0) → Type 0
Wants db p Asks = (c : SystemConfig) × In c db.configs × (c.user_id ≡ p.user_id) × Asks c

-- The address is that of the user who started the deployment.
abbrev pub IsInitiator : Database → Deployment → String → Type 0
IsInitiator db d to =
    (u : User) × In u db.users × (d.initiator_id ≡ some u.id) × (u.email ≡ to) × (to ≢ "")

-- The commands that a notification may send: to the one who started the deployment a mail on success
-- if it is READY and one on failure if it is FAILED, each if the owner's settings ask for it; a
-- message to the webhook of the owner's settings.
abbrev pub IsAllowed :
    ⦃crypto : Crypto⦄
    → DeploymentNotificationDto
    → Database
    → Deployment
    → Project
    → Command
    → Type 0
IsAllowed dto db d p (mail_success to project url) =
    (dto.status ≡ ready)
    × IsInitiator db d to
    × (project ≡ p.name)
    × (url ≡ or_else dto.deployment_url "")
    × Wants db p (λ c. c.email_deploy_success ≡ true)
IsAllowed dto db d p (mail_failure to project) =
    (dto.status ≡ failed)
    × IsInitiator db d to
    × (project ≡ p.name)
    × Wants db p (λ c. c.email_deploy_failed ≡ true)
IsAllowed dto db d p (post_slack url text) =
    Wants db p (λ c. (s : String) × (c.slack_webhook ≡ some s) × (decrypt s ≡ some url))
IsAllowed dto db d p (rpush_build job) = ⊥
IsAllowed dto db d p (lpush_cleanup job) = ⊥
IsAllowed dto db d p (set_cancel id seconds) = ⊥

is_ready_sound : (s : DeploymentStatus) → is_ready s ≡ true → s ≡ ready
is_ready_sound ready e = refl
is_ready_sound queued e = cc e
is_ready_sound building e = cc e
is_ready_sound deploying e = cc e
is_ready_sound failed e = cc e
is_ready_sound canceled e = cc e
is_ready_sound expired e = cc e
is_ready_sound superseded e = cc e

is_failed_sound : (s : DeploymentStatus) → is_failed s ≡ true → s ≡ failed
is_failed_sound failed e = refl
is_failed_sound queued e = cc e
is_failed_sound building e = cc e
is_failed_sound deploying e = cc e
is_failed_sound ready e = cc e
is_failed_sound canceled e = cc e
is_failed_sound expired e = cc e
is_failed_sound superseded e = cc e

module _ ⦃crypto : Crypto⦄ (dto : DeploymentNotificationDto) (db : Database) (d : Deployment)
    (p : Project) where
  mail_commands-IsAllowed :
      (c : SystemConfig) (o : Option User)
      → In c db.configs
      → c.user_id ≡ p.user_id
      → ((u : User) → o ≡ some u → In u db.users × (d.initiator_id ≡ some u.id))
      → All (IsAllowed dto db d p) (mail_commands dto p.name (some c) o)
  mail_commands-IsAllowed c none h own known = tt
  mail_commands-IsAllowed c (some u) h own known = elim (Bool-cases (u.email == "")) [
    | inl empty ↦ rw empty tt
    | inr given ↦
        let to : IsInitiator db d u.email = (
          u,
          (known u refl).0,
          (known u refl).1,
          refl,
          λ e. false≢true (sym given ∙ (eq_iff u.email "").1 e),
        ) in
        rw given (All-append (IsAllowed dto db d p) _ _ (good to) (bad to))
  ]
    where
      good :
          IsInitiator db d u.email
          → All (IsAllowed dto db d p) (
              if c.email_deploy_success && is_ready dto.status
              then mail_success u.email p.name (or_else dto.deployment_url "") ∷ []
              else [])
      good to = elim (Bool-cases (c.email_deploy_success && is_ready dto.status)) [
        | inl e ↦ rw e (
          (
            is_ready_sound dto.status (and_right c.email_deploy_success _ e),
            to,
            refl,
            refl,
            (c, h, own, and_left _ _ e),
          ),
          tt,
        )
        | inr e ↦ rw e tt
      ]

      bad :
          IsInitiator db d u.email
          → All (IsAllowed dto db d p) (
              if c.email_deploy_failed && is_failed dto.status
              then mail_failure u.email p.name ∷ []
              else [])
      bad to = elim (Bool-cases (c.email_deploy_failed && is_failed dto.status)) [
        | inl e ↦ rw e (
          (
            is_failed_sound dto.status (and_right c.email_deploy_failed _ e),
            to,
            refl,
            (c, h, own, and_left _ _ e),
          ),
          tt,
        )
        | inr e ↦ rw e tt
      ]

  slack_commands-IsAllowed :
      (c : SystemConfig) (u : Option User)
      → In c db.configs
      → c.user_id ≡ p.user_id
      → All (IsAllowed dto db d p) (slack_commands dto p.name (clear_webhook c.slack_webhook) u)
  slack_commands-IsAllowed c u h own = go c.slack_webhook refl
    where
      url_of :
          (s : String) (o : Option String)
          → c.slack_webhook ≡ some s
          → decrypt s ≡ o
          → All (IsAllowed dto db d p) (slack_commands dto p.name o u)
      url_of s none e plain = tt
      url_of s (some url) e plain = ((c, h, own, (s, e, plain)), tt)

      go :
          (o : Option String)
          → c.slack_webhook ≡ o
          → All (IsAllowed dto db d p) (slack_commands dto p.name (clear_webhook o) u)
      go none e = tt
      go (some s) e = elim (Bool-cases (s == "")) [
        | inl empty ↦ rw empty tt
        | inr given ↦ rw given (url_of s (decrypt s) e refl)
      ]

-- What a notification may answer.
abbrev pub NotifyOutcome :
    ⦃crypto : Crypto⦄ → DeploymentNotificationDto → World → Outcome (Unit {0}) → Type 0
NotifyOutcome dto w (done _ w') =
    (d : Deployment) × (p : Project) × IsAbout w.db dto.deployment_id d p
    × (extra : List Command) × (w' ≡ record w { sent = w.sent ++ extra })
    × All (IsAllowed dto w.db d p) extra
NotifyOutcome dto w (fail e w') = w' ≡ w

module _ ⦃prisma : Prisma⦄ ⦃crypto : Crypto⦄ (dto : DeploymentNotificationDto) (w : World) where
  extra-IsAllowed :
      (d : Deployment) (p : Project) (config : Option SystemConfig) (o : Option User)
      → ((c : SystemConfig) → config ≡ some c → In c w.db.configs × (c.user_id ≡ p.user_id))
      → ((u : User) → o ≡ some u → In u w.db.users × (d.initiator_id ≡ some u.id))
      → All (IsAllowed dto w.db d p) (
          slack_commands dto p.name
            (Option.bind config (λ (c : SystemConfig). clear_webhook c.slack_webhook))
            o
          ++ mail_commands dto p.name config o)
  unfolding Option.bind
  extra-IsAllowed d p none o owned known = tt
  extra-IsAllowed d p (some c) o owned known =
      let (member, own) = owned c refl in
      All-append (IsAllowed dto w.db d p) _ _ (slack_commands-IsAllowed dto w.db d p c o member own)
        (mail_commands-IsAllowed dto w.db d p c o member own known)

  initiator_of-IsInitiator :
      (d : Deployment) (u : User)
      → initiator_of w.db d ≡ some u
      → In u w.db.users × (d.initiator_id ≡ some u.id)
  unfolding Option.bind
  initiator_of-IsInitiator d u = by_id d.initiator_id
    where
      by_id :
          (o : Option String)
          → Option.bind o (λ id. prisma.find_first (λ (u : User). u.id == id) w.db.users) ≡ some u
          → In u w.db.users × (o ≡ some u.id)
      by_id none e = cc e
      by_id (some id) e =
          let (same, member) = prisma.find_first_some _ _ u e in
          (member, ap some (sym ((eq_iff u.id id).0 same)))

  -- A notification writes nothing to the database. It sends a mail on success only for READY and one
  -- on failure only for FAILED, to the user who started the deployment and only if settings of the
  -- project's owner ask for it; a message to Slack only to the webhook of such settings; and nothing
  -- else. Refused, it sends nothing.
  pub send_deployment_notification_lem : NotifyOutcome dto w (send_deployment_notification dto w)
  unfolding send_deployment_notification find_deployment
  send_deployment_notification_lem =
      let P = NotifyOutcome dto w in
      require_rule P _ w (prisma.find_first (has_id dto.deployment_id) w.db.deployments) _
        (λ _. refl)
        (λ d found.
          require_rule P _ w
            (prisma.find_first (λ (p : Project). p.id == d.project_id) w.db.projects) _ (λ _. refl)
            (λ p located. (
              d,
              p,
              about d p (prisma.find_first_some _ _ d found) (prisma.find_first_some _ _ p located),
              _,
              refl,
              extra-IsAllowed d p _ _
                  (λ c e.
                    let (own, member) = prisma.find_first_some _ _ c e in
                    (member, (eq_iff c.user_id p.user_id).0 own))
                  (initiator_of-IsInitiator d),
            )))
    where
      about :
          (d : Deployment) (p : Project)
          → (has_id dto.deployment_id d ≡ true) × In d w.db.deployments
          → ((p.id == d.project_id) ≡ true) × In p w.db.projects
          → IsAbout w.db dto.deployment_id d p
      about d p (named, stored) (of_project, project) = record {
        stored = stored;
        named = (eq_iff d.id dto.deployment_id).0 named;
        project = project;
        of_project = (eq_iff p.id d.project_id).0 of_project;
      }
