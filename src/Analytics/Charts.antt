-- ===== src/Analytics/Charts.antt =====
-- The charts of the dashboard and of a project, over the tables.
use code2cloud.Prelude.{
  String, ◌≤◌, ◌≡◌, ◌-◌, ◌*◌, ◌⊎◌, ◌↔◌, refl, Bool, true, false, List, ◌==◌, In, map, length, inl,
  inr, arith, and_left, and_right, leb→le, Option-cases,
}
use code2cloud.Schema.{Deployment, Project}
use code2cloud.Prisma.{Prisma}
use code2cloud.Prisma.Laws.{In-filter, filter-In}
use code2cloud.World.{World, not_found, done, fail}
use code2cloud.Deployments.{project_of_user, is_project_of}
use code2cloud.Analytics.{day, day_of, DayCount, TrendPoint, group_by_day, compute_build_time_trend}
use code2cloud.Analytics.Days.{days_from}
use code2cloud.Analytics.Totals.{day_count, sum_of, group_by_day_lem}
use code2cloud.Analytics.Trend.{trend_of, compute_build_time_trend_lem}
use code2cloud.Analytics.Overview.{
  GroupBy, Overview, ProjectAnalytics, since, recent_deployments, project_figures, get_overview,
  get_project_analytics,
}

module _ ⦃prisma : Prisma⦄ where
  -- The two charts are about the chosen deployments of the last thirty days: the 31 days up to today
  -- in their order, each with its counts and its average build time, where every deployment counts.
  pub record IsCharted (chosen : Deployment → Bool) (w : World) (over_time : List DayCount)
      (trend : List TrendPoint) : Type 0 where
    pub counts :
        over_time ≡ map (day_count (recent_deployments chosen w)) (days_from (day_of w.now - 30) 31)
    pub every : sum_of over_time ≡ length (recent_deployments chosen w)
    pub averages :
        trend ≡ map (trend_of (recent_deployments chosen w)) (days_from (day_of w.now - 30) 31)
    pub recent :
        (d : Deployment)
        → In d (recent_deployments chosen w)
          ↔ (In d w.db.deployments × (chosen d ≡ true) × (w.now - 30 * day ≤ d.started_at))

  module _ (chosen : Deployment → Bool) (w : World) (late : 30 * day ≤ w.now)
      (past : (d : Deployment) → In d w.db.deployments → d.started_at ≤ w.now) where
    recent_lem :
        (d : Deployment)
        → In d (recent_deployments chosen w)
          ↔ (In d w.db.deployments × (chosen d ≡ true) × (w.now - 30 * day ≤ d.started_at))
    recent_lem d =
        let test = since (w.now - 30 * day) chosen in
        (
          λ h.
              let (hit, member) = In-filter test d w.db.deployments (
                rw (prisma.find_many_lem test w.db.deployments) at
                  ((prisma.order_desc_same _ _ d).0 h)) in
              (member, and_left (chosen d) _ hit, leb→le _ _ (and_right (chosen d) _ hit)),
          λ (member, hit, after). (prisma.order_desc_same _ _ d).1 (
              rw (prisma.find_many_lem test w.db.deployments)
                (filter-In test d w.db.deployments (ground arith) member)),
        )

    within :
        (d : Deployment)
        → In d (recent_deployments chosen w)
        → (w.now - 30 * day ≤ d.started_at) × (d.started_at ≤ w.now)
    within d h = let (member, _, after) = (recent_lem d).0 h in (after, past d member)

    charted :
        IsCharted chosen w
          (group_by_day (recent_deployments chosen w) (w.now - 30 * day) w.now)
          (compute_build_time_trend (recent_deployments chosen w) (w.now - 30 * day) w.now)
    charted =
        let (counts, every) = group_by_day_lem (recent_deployments chosen w) w.now late within in
        record {
          counts = counts;
          every = every;
          averages = compute_build_time_trend_lem (recent_deployments chosen w) w.now late;
          recent = recent_lem;
        }

module _ ⦃prisma : Prisma⦄ ⦃groups : GroupBy⦄ where
  -- The overview of a user charts the deployments of the user's projects; the analytics of a project
  -- chart its deployments if it is the user's, and fail with 404 if the user has no such project.
  -- Nothing is written. The clock stands after January 1970, and no deployment starts in the future.
  pub analytics_lem :
      (user_id project_id : String) (w : World)
      → 30 * day ≤ w.now
      → ((d : Deployment) → In d w.db.deployments → d.started_at ≤ w.now)
      → ((o : Overview) × (get_overview user_id w ≡ done o w)
          × IsCharted
              (λ d. project_of_user w.db user_id d.project_id)
              w
              o.deployments_over_time
              o.build_time_trend)
        × (((get_project_analytics user_id project_id w ≡ fail (not_found "Project not found") w)
              × ((p : Project) → In p w.db.projects → is_project_of user_id project_id p ≡ false))
            ⊎ ((p : Project) × (a : ProjectAnalytics) × In p w.db.projects
                × (is_project_of user_id project_id p ≡ true)
                × (get_project_analytics user_id project_id w ≡ done a w)
                × IsCharted
                    (λ d. d.project_id == project_id)
                    w
                    a.deployments_over_time
                    a.build_time_trend))
  unfolding get_overview get_project_analytics
  analytics_lem user_id project_id w late past = (
    (_, refl, charted (λ d. project_of_user w.db user_id d.project_id) w late past),
    elim (Option-cases (prisma.find_first (is_project_of user_id project_id) w.db.projects)) [
      | inl missing ↦ inl (rw missing refl, λ p h. prisma.find_first_none _ _ p missing h)
      | inr (p, found) ↦
          let (hit, member) = prisma.find_first_some _ _ p found in
          inr (
            p,
            project_figures w project_id p,
            member,
            hit,
            rw found refl,
            charted (λ d. d.project_id == project_id) w late past,
          )
    ],
  )
