-- ===== src/Internal/Report.antt =====
-- What a report of the worker on a deployment does, and the release of its resources.
use code2cloud.Prelude.{
  ℕ, String, ◌≡◌, ◌≢◌, ◌⊎◌, ◌||◌, inl, inr, refl, ap, true, false, Option, none, some, In, eq_iff,
  arith,
}
use code2cloud.Prelude.Int.{floor_div_sub}
use code2cloud.Schema.{
  DeploymentStatus, queued, building, deploying, ready, failed, canceled, expired, superseded,
  Deployment, is_ready, is_terminal,
}
use code2cloud.Prisma.{Prisma, change_where}
use code2cloud.World.{World, Outcome, done, fail, not_found}
use code2cloud.World.Laws.{require_rule}
use code2cloud.Deployments.{has_id, update_deployment}
use code2cloud.Internal.{
  UpdateDeploymentStatusDto, replaced, report_on, find_deployment, update_deployment_status,
  delete_deployment_resources,
}

-- The world in which the rows with a deployment's id are changed.
abbrev pub changed : World → Deployment → (Deployment → Deployment) → World
changed w d f = record w {
  db = record w.db { deployments = change_where (has_id d.id) f w.db.deployments };
}

abbrev pub Missing : String → World → Type 0
Missing id w = (d : Deployment) → In d w.db.deployments → has_id id d ≡ false

-- A report of one of these ends a deployment.
abbrev Ends : DeploymentStatus → Type 0
Ends status = (status ≡ ready) ⊎ ((status ≡ failed) ⊎ (status ≡ canceled))

-- A given value that is not empty is written, and any other leaves the old one.
abbrev IsReplaced : Option String → Option String → Option String → Type 0
IsReplaced given old new =
    ((s : String) → given ≡ some s → s ≢ "" → new ≡ some s)
    × (((given ≡ none) ⊎ (given ≡ some "")) → new ≡ old)

-- What a report at a time makes of a row of a deployment that started at another.
pub record IsReport (now : ℕ) (dto : UpdateDeploymentStatusDto) (started_at : ℕ)
    (old new : Deployment) : Type 0 where
  pub status : new.status ≡ dto.status
  pub succeeds : dto.status ≡ ready → new.is_success ≡ true
  pub keeps_success : dto.status ≢ ready → new.is_success ≡ old.is_success
  pub image : IsReplaced dto.container_image old.container_image new.container_image
  pub address : IsReplaced dto.deployment_url old.deployment_url new.deployment_url
  pub finishes :
      Ends dto.status
      → (new.finished_at ≡ some now) × (new.duration ≡ some (floor_div_sub now started_at 1000))
  pub goes_on :
      ¬ Ends dto.status → (new.finished_at ≡ old.finished_at) × (new.duration ≡ old.duration)
  pub others :
      record new {
        status = old.status;
        is_success = old.is_success;
        container_image = old.container_image;
        deployment_url = old.deployment_url;
        finished_at = old.finished_at;
        duration = old.duration;
      }
      ≡ old

replaced-IsReplaced : (given old : Option String) → IsReplaced given old (replaced given old)
replaced-IsReplaced none old = (λ s e. cc e, λ _. refl)
replaced-IsReplaced (some t) old = (
  λ s e given. ground (arith, e, given, eq_iff t ""),
  λ e. elim e [ inl e ↦ cc e | inr empty ↦ ground (arith, empty, eq_iff t "") ],
)

module _ (now : ℕ) (dto : UpdateDeploymentStatusDto) (started_at : ℕ) (r : Deployment) where
  abbrev SetsSuccess : DeploymentStatus → Type 0
  SetsSuccess s =
      (s ≡ ready → (is_ready s || r.is_success) ≡ true)
      × (s ≢ ready → (is_ready s || r.is_success) ≡ r.is_success)

  ready_rule : (s : DeploymentStatus) → SetsSuccess s
  ready_rule ready = (λ _. refl, λ differs. absurd (differs refl))
  ready_rule queued = (λ e. cc e, λ _. refl)
  ready_rule building = (λ e. cc e, λ _. refl)
  ready_rule deploying = (λ e. cc e, λ _. refl)
  ready_rule failed = (λ e. cc e, λ _. refl)
  ready_rule canceled = (λ e. cc e, λ _. refl)
  ready_rule expired = (λ e. cc e, λ _. refl)
  ready_rule superseded = (λ e. cc e, λ _. refl)

  terminal_rule :
      (s : DeploymentStatus)
      → ((is_terminal s ≡ true) × Ends s) ⊎ ((is_terminal s ≡ false) × ¬ Ends s)
  terminal_rule ready = inl (refl, inl refl)
  terminal_rule failed = inl (refl, inr (inl refl))
  terminal_rule canceled = inl (refl, inr (inr refl))
  terminal_rule queued =
      inr (refl, λ e. elim e [ inl x ↦ cc x | inr y ↦ elim y [ inl x ↦ cc x | inr x ↦ cc x ] ])
  terminal_rule building =
      inr (refl, λ e. elim e [ inl x ↦ cc x | inr y ↦ elim y [ inl x ↦ cc x | inr x ↦ cc x ] ])
  terminal_rule deploying =
      inr (refl, λ e. elim e [ inl x ↦ cc x | inr y ↦ elim y [ inl x ↦ cc x | inr x ↦ cc x ] ])
  terminal_rule expired =
      inr (refl, λ e. elim e [ inl x ↦ cc x | inr y ↦ elim y [ inl x ↦ cc x | inr x ↦ cc x ] ])
  terminal_rule superseded =
      inr (refl, λ e. elim e [ inl x ↦ cc x | inr y ↦ elim y [ inl x ↦ cc x | inr x ↦ cc x ] ])

  report_on-IsReport : IsReport now dto started_at r (report_on now dto started_at r)
  report_on-IsReport = record {
    status = refl;
    succeeds = (ready_rule dto.status).0;
    keeps_success = (ready_rule dto.status).1;
    image = replaced-IsReplaced dto.container_image r.container_image;
    address = replaced-IsReplaced dto.deployment_url r.deployment_url;
    finishes = λ ends. elim (terminal_rule dto.status) [
      | inl (e, _) ↦ rw e (refl, refl)
      | inr (_, lasting) ↦ absurd (lasting ends)
    ];
    goes_on = λ on. elim (terminal_rule dto.status) [
      | inl (_, ends) ↦ absurd (on ends)
      | inr (e, _) ↦ rw e (refl, refl)
    ];
    others = refl;
  }

abbrev pub ReportOutcome : String → UpdateDeploymentStatusDto → World → Outcome Deployment → Type 0
ReportOutcome id dto w (done updated w') =
    (d : Deployment) × In d w.db.deployments
    × (d.id ≡ id)
    × (f : Deployment → Deployment) × ((r : Deployment) → IsReport w.now dto d.started_at r (f r))
    × (updated ≡ f d)
    × (w' ≡ changed w d f)
ReportOutcome id dto w (fail e w') =
    (e ≡ not_found "Deployment not found") × (w' ≡ w) × Missing id w

abbrev pub release : ℕ → Deployment → Deployment
release now r = record r { status = canceled; finished_at = some now }

abbrev pub ReleaseOutcome : String → World → Outcome Deployment → Type 0
ReleaseOutcome id w (done d w') =
    In d w.db.deployments × (d.id ≡ id) × (w' ≡ changed w d (release w.now))
ReleaseOutcome id w (fail e w') = (e ≡ not_found "Deployment not found") × (w' ≡ w) × Missing id w

module _ ⦃prisma : Prisma⦄ (id : String) (w : World) where
  -- A report on a deployment that there is writes its row alone: the status, the success of a
  -- READY one, the image and the address if they are given and not empty, for READY, FAILED and
  -- CANCELED the time and the duration in seconds, and no other column. On any other id it is
  -- refused and nothing is written.
  pub update_deployment_status_lem :
      (dto : UpdateDeploymentStatusDto) → ReportOutcome id dto w (update_deployment_status id dto w)
  unfolding update_deployment_status find_deployment update_deployment
  update_deployment_status_lem dto =
      require_rule (ReportOutcome id dto w) _ w (prisma.find_first (has_id id) w.db.deployments) _
        (λ missing. (refl, refl, λ d member. prisma.find_first_none _ _ d missing member))
        (λ d found.
          let (named, member) = prisma.find_first_some _ _ _ found in
          (
            d,
            member,
            (eq_iff d.id id).0 named,
            report_on w.now dto d.started_at,
            report_on-IsReport w.now dto d.started_at,
            refl,
            ap (λ t. record w { db = record w.db { deployments = t } })
                (prisma.update_lem (has_id d.id) (report_on w.now dto d.started_at)
                  w.db.deployments),
          ))

  -- The release of a deployment that there is marks its row as canceled and finished now, and
  -- answers with the row as it was. On any other id it is refused and nothing is written.
  pub delete_deployment_resources_lem : ReleaseOutcome id w (delete_deployment_resources id w)
  unfolding delete_deployment_resources find_deployment update_deployment
  delete_deployment_resources_lem =
      require_rule (ReleaseOutcome id w) _ w (prisma.find_first (has_id id) w.db.deployments) _
        (λ missing. (refl, refl, λ d member. prisma.find_first_none _ _ d missing member))
        (λ d found.
          let (named, member) = prisma.find_first_some _ _ _ found in
          (
            member,
            (eq_iff d.id id).0 named,
            ap (λ t. record w { db = record w.db { deployments = t } })
                (prisma.update_lem (has_id d.id) (release w.now) w.db.deployments),
          ))
