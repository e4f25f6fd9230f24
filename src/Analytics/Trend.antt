-- ===== src/Analytics/Trend.antt =====
-- The trend of the build times.
use mathlib.Core.Path.{fun_ext}
use mathlib.Core.List.{map-map}
use code2cloud.Prelude.{
  ℕ, suc, ◌≤◌, ◌≡◌, ◌+◌, ◌-◌, ◌*◌, refl, ap, ◌∙◌, Bool, true, List, [], ◌∷◌, map, filter, length,
  leb, if◌then◌else◌, arith, Bool-cases, inl, inr,
}
use code2cloud.Prelude.Int.{ℤ, pos, ◌+ℤ◌, round_div}
use code2cloud.Schema.{Deployment}
use code2cloud.Analytics.{
  day, day_of, rounds, DayDuration, no_builds, add_build, is_completed, avg_build_time,
  sum_durations, trend_point, TrendPoint, compute_build_time_trend, duration_of,
}
use code2cloud.Analytics.Days.{
  days_from, on_day, tally, fill_days-table, values-table, sort_days-days_from,
}
use code2cloud.Analytics.Totals.{days_of, rounds_lem}

-- The entry of a day after some builds whose durations have a sum.
abbrev entry_of : (date n : ℕ) (sum : ℤ) → DayDuration
entry_of date n sum = record {
  date = date;
  avg_duration = if leb 1 n then round_div sum n else pos 0;
  count = n;
  total_duration = sum;
}

tally-add_build :
    (k : ℕ) (ds : List Deployment) (date n : ℕ) (sum : ℤ)
    → tally add_build k ds (entry_of date n sum)
      ≡ entry_of date (n + length (filter (on_day k) ds)) (sum_durations sum (filter (on_day k) ds))
tally-add_build k [] date n sum = ap (λ m. entry_of date m sum) (omega arith)
tally-add_build k (d ∷ ds) date n sum = elim (Bool-cases (on_day k d)) [
  | inr other ↦ rw other (tally-add_build k ds date n sum)
  | inl same ↦
      rw (same, grown d date n sum)
        (tally-add_build k ds date (suc n) (sum +ℤ duration_of d)
          ∙ ap (λ m. entry_of date m (sum_durations (sum +ℤ duration_of d) (filter (on_day k) ds)))
              (omega arith))
]
  where
    grown :
        (d : Deployment) (date n : ℕ) (sum : ℤ)
        → add_build d (entry_of date n sum) ≡ entry_of date (suc n) (sum +ℤ duration_of d)
    grown d date n sum = rw (positive n) refl
      where
        positive : (n : ℕ) → leb 1 (suc n) ≡ true
        positive n = ground arith

-- A day's point of the trend is the average build time of the deployments of that day.
abbrev pub trend_of : List Deployment → ℕ → TrendPoint
trend_of ds k = record { date = k; avg_duration = avg_build_time (filter (on_day k) ds) }

filter-swap :
    {A : Type 0} (p q : A → Bool) (xs : List A) → filter p (filter q xs) ≡ filter q (filter p xs)
filter-swap p q [] = refl
filter-swap p q (x ∷ xs) = ground (arith, filter-swap p q xs)

trend_point-tally :
    (ds : List Deployment) (k : ℕ)
    → trend_point (tally add_build k (filter is_completed ds) (no_builds k)) ≡ trend_of ds k
trend_point-tally ds k =
    ap trend_point (tally-add_build k (filter is_completed ds) k 0 (pos 0))
    ∙ ap
        (λ m.
          trend_point
            (entry_of k m (sum_durations (pos 0) (filter (on_day k) (filter is_completed ds)))))
        (omega arith)
    ∙ ap (λ xs. trend_point (entry_of k (length xs) (sum_durations (pos 0) xs)))
        (filter-swap (on_day k) is_completed ds)

-- The trend of the last thirty days gives, for each of the 31 days that the chart of the deployments
-- has, in their order, the average build time of the completed deployments of that day.
pub compute_build_time_trend_lem :
    (ds : List Deployment) (now : ℕ)
    → 30 * day ≤ now
    → compute_build_time_trend ds (now - 30 * day) now
      ≡ map (trend_of ds) (days_from (day_of now - 30) 31)
unfolding compute_build_time_trend
compute_build_time_trend_lem ds now late =
    let start = now - 30 * day in
    let days = days_from (day_of start) (rounds start now) in
    let first : day_of (now - 30 * day) ≡ day_of now - 30 = omega (arith, late) in
    rw
      (
        days_of no_builds start now (omega (arith, late)),
        fill_days-table add_build (filter is_completed ds) no_builds days,
        values-table (λ k. tally add_build k (filter is_completed ds) (no_builds k)) days,
        map-map trend_point (λ k. tally add_build k (filter is_completed ds) (no_builds k)) days,
        fun_ext (trend_point-tally ds),
        first,
        rounds_lem now late,
      )
      (sort_days-days_from (λ (e : TrendPoint). e.date) (trend_of ds) (λ k. refl) 31
        (day_of now - 30))
