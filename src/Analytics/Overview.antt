-- ===== src/Analytics/Overview.antt =====
-- apps/api/src/analytics/analytics.service.ts: `getOverview` and `getProjectAnalytics`.
use code2cloud.Prelude.{
  ℕ, String, ◌≤◌, ◌≡◌, ◌-◌, ◌*◌, Bool, Option, none, some, List, [], ◌∷◌, ◌&&◌, ◌==◌, ◌↔◌, In, map,
  filter, find?, any, take, length, leb, or_else, Dict, put,
}
use code2cloud.Prelude.Int.{ℤ}
use code2cloud.Schema.{Deployment, DeploymentStatus, Project}
use code2cloud.Prisma.{Prisma}
use code2cloud.World.{World, Act, not_found, pure, ◌>>=◌, get, require}
use code2cloud.Deployments.{project_of_user, is_project_of, status_text}
use code2cloud.Analytics.{
  day, DayCount, TrendPoint, group_by_day, compute_build_time_trend, avg_build_time, success_rate,
  is_completed, build_times, fastest_build, slowest_build,
}

-- `groupBy` with `_count`: one row for each key that a row of the table has, in any order.
pub record GroupBy : Type 1 where
  pub group_by : {Row : Type 0} → (Row → String) → List Row → List (String × ℕ)
  pub group_by_lem :
      {Row : Type 0} (key : Row → String) (t : List Row) (k : String) (n : ℕ)
      → In (k, n) (group_by key t) ↔ ((n ≡ length (filter (λ r. key r == k) t)) × (1 ≤ n))
  pub group_by_once :
      {Row : Type 0} (key : Row → String) (t : List Row) (k : String)
      → length (filter (λ (c : String × ℕ). c.0 == k) (group_by key t)) ≤ 1

pub record ProjectCount : Type 0 where
  pub project_id : String
  pub project_name : String
  pub framework : String
  pub count : ℕ

pub record Overview : Type 0 where
  pub total_deployments : ℕ
  pub total_projects : ℕ
  pub deployments_this_week : ℕ
  pub avg_build_time : ℤ
  pub success_rate : ℕ
  pub deployments_over_time : List DayCount
  pub status_distribution : Dict ℕ
  pub deployments_by_project : List ProjectCount
  pub build_time_trend : List TrendPoint

pub record Activity : Type 0 where
  pub id : String
  pub status : DeploymentStatus
  pub started_at : ℕ
  pub finished_at : Option ℕ
  pub duration : Option ℤ
  pub commit_hash : String
  pub commit_message : Option String
  pub branch : String

pub record ProjectAnalytics : Type 0 where
  pub project_id : String
  pub project_name : String
  pub framework : String
  pub total_deployments : ℕ
  pub deployments_this_week : ℕ
  pub avg_build_time : ℤ
  pub success_rate : ℕ
  pub fastest_build : ℤ
  pub slowest_build : ℤ
  pub status_distribution : Dict ℕ
  pub deployments_over_time : List DayCount
  pub build_time_trend : List TrendPoint
  pub recent_activity : List Activity

abbrev pub activity_of : Deployment → Activity
activity_of d = record {
  id = d.id;
  status = d.status;
  started_at = d.started_at;
  finished_at = d.finished_at;
  duration = d.duration;
  commit_hash = d.commit_hash;
  commit_message = d.commit_message;
  branch = d.branch;
}

-- `for (const sc of statusCounts) statusDistribution[sc.status] = sc._count.id`.
abbrev pub distribution : List (String × ℕ) → Dict ℕ → Dict ℕ
distribution [] m = m
distribution ((k, n) ∷ counts) m = distribution counts (put k n m)

-- `projectNameMap.get(id)?.name || "Unknown"`, and the same of the framework.
abbrev pub named : List Project → String × ℕ → ProjectCount
named projects (id, n) =
    let row = find? (λ (p : Project). p.id == id) projects in
    record {
      project_id = id;
      project_name = or_else (elim row [ none ↦ none | some p ↦ some p.name ]) "Unknown";
      framework = or_else (elim row [ none ↦ none | some p ↦ some p.framework ]) "unknown";
      count = n;
    }

abbrev pub since : ℕ → (Deployment → Bool) → Deployment → Bool
since t chosen d = chosen d && leb t d.started_at

module _ ⦃prisma : Prisma⦄ where
  -- The deployments of the last thirty days, the newest first.
  abbrev pub recent_deployments : (Deployment → Bool) → World → List Deployment
  recent_deployments chosen w =
      prisma.order_desc (λ (d : Deployment). d.started_at)
        (prisma.find_many (since (w.now - 30 * day) chosen) w.db.deployments)

  abbrev pub deployment_count : (Deployment → Bool) → World → ℕ
  deployment_count chosen w = length (prisma.find_many chosen w.db.deployments)

module _ ⦃prisma : Prisma⦄ ⦃groups : GroupBy⦄ where
  abbrev pub status_counts : (Deployment → Bool) → World → Dict ℕ
  status_counts chosen w =
      distribution
        (groups.group_by (λ (d : Deployment). status_text d.status)
          (prisma.find_many chosen w.db.deployments))
        []

  -- The ten projects with the most deployments.
  abbrev pub top_projects : (Deployment → Bool) → World → List ProjectCount
  top_projects chosen w =
      let counts = take 10 (
        prisma.order_desc (λ (c : String × ℕ). c.1)
          (groups.group_by (λ (d : Deployment). d.project_id)
            (prisma.find_many (since (w.now - 30 * day) chosen) w.db.deployments))) in
      map
        (named (
          prisma.find_many (λ (p : Project). any (λ (c : String × ℕ). c.0 == p.id) counts)
            w.db.projects))
        counts

  unfoldable pub get_overview : String → Act Overview
  get_overview user_id = do
    w ← get
    let mine = λ (d : Deployment). project_of_user w.db user_id d.project_id
    let recent = recent_deployments mine w
    pure (record {
      total_deployments = deployment_count mine w;
      total_projects =
          length (prisma.find_many (λ (p : Project). p.user_id == user_id) w.db.projects);
      deployments_this_week = deployment_count (since (w.now - 7 * day) mine) w;
      avg_build_time = avg_build_time recent;
      success_rate = success_rate recent;
      deployments_over_time = group_by_day recent (w.now - 30 * day) w.now;
      status_distribution = status_counts mine w;
      deployments_by_project = top_projects mine w;
      build_time_trend = compute_build_time_trend recent (w.now - 30 * day) w.now;
    })

  abbrev pub project_figures : World → String → Project → ProjectAnalytics
  project_figures w project_id project =
      let its = λ (d : Deployment). d.project_id == project_id in
      let recent = recent_deployments its w in
      let times = build_times (filter is_completed recent) in
      record {
        project_id = project.id;
        project_name = project.name;
        framework = project.framework;
        total_deployments = deployment_count its w;
        deployments_this_week = deployment_count (since (w.now - 7 * day) its) w;
        avg_build_time = avg_build_time recent;
        success_rate = success_rate recent;
        fastest_build = fastest_build times;
        slowest_build = slowest_build times;
        status_distribution = status_counts its w;
        deployments_over_time = group_by_day recent (w.now - 30 * day) w.now;
        build_time_trend = compute_build_time_trend recent (w.now - 30 * day) w.now;
        recent_activity = map activity_of (take 10 recent);
      }

  unfoldable pub get_project_analytics : (user_id project_id : String) → Act ProjectAnalytics
  get_project_analytics user_id project_id = do
    w ← get
    project ←
        require (prisma.find_first (is_project_of user_id project_id) w.db.projects)
          (not_found "Project not found")
    pure (project_figures w project_id project)
