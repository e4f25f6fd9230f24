-- ===== src/Analytics.antt =====
-- apps/api/src/analytics/analytics.service.ts: the figures of the dashboard and of a project.
-- A date is the number of days since 1970 in UTC, to which `toISOString` gives the text. The server's
-- clock is taken to be in UTC, so that `setDate(getDate() + 1)` adds a day, and to stand after
-- January 1970, so that `now` less thirty days is not negative. Quotients of doubles are taken as exact.
pub mod Days
pub mod Totals
pub mod Trend
pub mod Overview
pub mod Charts
use code2cloud.Prelude.{
  ℕ, zero, suc, String, ◌≤◌, ◌≡◌, ◌+◌, ◌-◌, ◌*◌, ◌/◌, Bool, true, false, not, Option, none, some,
  List, [], ◌∷◌, ◌&&◌, ◌==◌, map, filter, find?, any, take, length, leb, nat_eq, if◌then◌else◌,
  or_else, ◌↔◌, In,
}
use code2cloud.Prelude.Int.{ℤ, pos, ◌+ℤ◌, round_div, is_positive, ltb_ℤ}
use code2cloud.Schema.{Deployment, DeploymentStatus, ready, expired, failed, Project, is_failed}
use code2cloud.Prisma.{Prisma}
use code2cloud.World.{World, Act, Database, not_found, pure, ◌>>=◌, get, require}
use code2cloud.Deployments.{project_of_user, is_project_of}

abbrev pub day : ℕ
day = 86400000

-- `date.toISOString().split("T")[0]`.
abbrev pub day_of : ℕ → ℕ
day_of t = t / day

-- `Map<string, V>`, its keys in the order of their insertion; they are distinct.
abbrev pub DayMap : Type 0 → Type 0
DayMap V = List (ℕ × V)

-- `dayMap.set(key, v)`.
abbrev pub set_day : {V : Type 0} → ℕ → V → DayMap V → DayMap V
set_day k v [] = (k, v) ∷ []
set_day k v ((j, w) ∷ m) =
    let rest = set_day k v m in if nat_eq j k then (k, v) ∷ m else (j, w) ∷ rest

-- `const entry = dayMap.get(key); if (entry) { … }`.
abbrev pub change_day : {V : Type 0} → ℕ → (V → V) → DayMap V → DayMap V
change_day k f [] = []
change_day k f ((j, v) ∷ m) =
    let rest = change_day k f m in (j, if nat_eq j k then f v else v) ∷ rest

-- `while (current <= endDate) { … }`, of at most as many rounds as the first argument says.
abbrev pub init_days : {V : Type 0} → (ℕ → V) → ℕ → (current finish : ℕ) → DayMap V → DayMap V
init_days fresh zero current finish m = m
init_days fresh (suc n) current finish m =
    let rest =
      init_days fresh n (current + day) finish
        (set_day (day_of current) (fresh (day_of current)) m) in
    if leb current finish then rest else m

-- The rounds that the loop makes.
unfoldable pub rounds : (start finish : ℕ) → ℕ
rounds start finish = suc ((finish - start) / day)

-- `for (const d of deployments) { … }`.
abbrev pub fill_days : {V : Type 0} → (Deployment → V → V) → List Deployment → DayMap V → DayMap V
fill_days count [] m = m
fill_days count (d ∷ ds) m = fill_days count ds (change_day (day_of d.started_at) (count d) m)

-- `Array.from(dayMap.values()).sort(…)`: a stable sort by the date.
abbrev pub insert_day : {V : Type 0} → (V → ℕ) → V → List V → List V
insert_day date v [] = v ∷ []
insert_day date v (w ∷ vs) =
    let rest = insert_day date v vs in if leb (date v) (date w) then v ∷ w ∷ vs else w ∷ rest

abbrev pub sort_days : {V : Type 0} → (V → ℕ) → List V → List V
sort_days date [] = []
sort_days date (v ∷ vs) = insert_day date v (sort_days date vs)

abbrev pub values : {V : Type 0} → DayMap V → List V
values [] = []
values ((k, v) ∷ m) = v ∷ values m

pub record DayCount : Type 0 where
  pub date : ℕ
  pub total : ℕ
  pub success : ℕ
  pub failed : ℕ

abbrev pub no_deployments : ℕ → DayCount
no_deployments date = record { date = date; total = 0; success = 0; failed = 0 }

abbrev pub count_deployment : Deployment → DayCount → DayCount
count_deployment d e = record e {
  total = suc e.total;
  success = if d.is_success then suc e.success else e.success;
  failed = if is_failed d.status then suc e.failed else e.failed;
}

unfoldable pub group_by_day : List Deployment → (start finish : ℕ) → List DayCount
group_by_day deployments start finish =
    let days = init_days no_deployments (rounds start finish) start finish [] in
    sort_days (λ (e : DayCount). e.date) (values (fill_days count_deployment deployments days))

pub record DayDuration : Type 0 where
  pub date : ℕ
  pub avg_duration : ℤ
  pub count : ℕ
  pub total_duration : ℤ

abbrev pub no_builds : ℕ → DayDuration
no_builds date = record { date = date; avg_duration = pos 0; count = 0; total_duration = pos 0 }

-- `d.duration || 0`.
abbrev pub duration_of : Deployment → ℤ
duration_of d = elim d.duration [ none ↦ pos 0 | some t ↦ t ]

-- d.duration !== null && d.isSuccess === true
abbrev pub is_completed : Deployment → Bool
is_completed d = elim d.duration [ none ↦ false | some t ↦ d.is_success ]

abbrev pub add_build : Deployment → DayDuration → DayDuration
add_build d e = record {
  date = e.date;
  count = suc e.count;
  total_duration = e.total_duration +ℤ duration_of d;
  avg_duration = round_div (e.total_duration +ℤ duration_of d) (suc e.count);
}

pub record TrendPoint : Type 0 where
  pub date : ℕ
  pub avg_duration : ℤ

abbrev pub trend_point : DayDuration → TrendPoint
trend_point e = record { date = e.date; avg_duration = e.avg_duration }

-- A deployment that is not completed is passed over by `continue`.
unfoldable pub compute_build_time_trend : List Deployment → (start finish : ℕ) → List TrendPoint
compute_build_time_trend deployments start finish =
    let days = init_days no_builds (rounds start finish) start finish [] in
    sort_days (λ (e : TrendPoint). e.date)
      (map trend_point (values (fill_days add_build (filter is_completed deployments) days)))

-- `completed.reduce((sum, d) => sum + (d.duration || 0), sum)`.
abbrev pub sum_durations : ℤ → List Deployment → ℤ
sum_durations sum [] = sum
sum_durations sum (d ∷ ds) = sum_durations (sum +ℤ duration_of d) ds

abbrev pub mean_duration : List Deployment → ℤ
mean_duration completed =
    if leb 1 (length completed)
    then round_div (sum_durations (pos 0) completed) (length completed)
    else pos 0

abbrev pub avg_build_time : List Deployment → ℤ
avg_build_time recent = mean_duration (filter is_completed recent)

-- ["READY", "EXPIRED", "FAILED"].includes(d.status)
abbrev pub is_finished : DeploymentStatus → Bool
is_finished ready = true
is_finished expired = true
is_finished failed = true
is_finished _ = false

unfoldable pub success_rate : List Deployment → ℕ
success_rate recent =
    let total_completed = length (filter (λ (d : Deployment). is_finished d.status) recent) in
    let success_count = length (filter (λ (d : Deployment). d.is_success) recent) in
    if leb 1 total_completed
    then (200 * success_count + total_completed) / (2 * total_completed)
    else 100

-- The durations of the builds, those that are positive, and their extremes.
abbrev pub build_times : List Deployment → List ℤ
build_times [] = []
build_times (d ∷ ds) =
    let rest = build_times ds in
    elim d.duration [ none ↦ rest | some t ↦ if is_positive t then t ∷ rest else rest ]

-- `Math.min(...times)` and `Math.max(...times)` of `first` and the rest.
abbrev pub min_of : ℤ → List ℤ → ℤ
min_of first [] = first
min_of first (t ∷ ts) = min_of (if ltb_ℤ t first then t else first) ts

abbrev pub max_of : ℤ → List ℤ → ℤ
max_of first [] = first
max_of first (t ∷ ts) = max_of (if ltb_ℤ first t then t else first) ts

abbrev pub fastest_build : List ℤ → ℤ
fastest_build [] = pos 0
fastest_build (t ∷ ts) = min_of t ts

abbrev pub slowest_build : List ℤ → ℤ
slowest_build [] = pos 0
slowest_build (t ∷ ts) = max_of t ts
