-- ===== src/Analytics/Totals.antt =====
-- What the charts of the dashboard count.
use mathlib.Core.Path.{fun_ext}
use code2cloud.Prelude.{
  ℕ, zero, suc, ◌≤◌, ◌≡◌, ◌+◌, ◌-◌, ◌*◌, refl, ap, ◌∙◌, Bool, true, false, List, [], ◌∷◌, ◌&&◌, map,
  filter, length, if◌then◌else◌, In, inl, inr, arith, Bool-cases, leb, ltb,
}
use code2cloud.Schema.{Deployment, is_failed}
use code2cloud.Analytics.{
  day, day_of, init_days, rounds, DayCount, no_deployments, count_deployment, group_by_day,
  sort_days,
}
use code2cloud.Analytics.Days.{
  days_from, on_day, table, tally, init_days-table, fill_days-table, values-table,
  sort_days-days_from,
}

-- The deployments of a day, those that succeeded and those that failed.
abbrev pub day_count : List Deployment → ℕ → DayCount
day_count ds k = record {
  date = k;
  total = length (filter (on_day k) ds);
  success = length (filter (λ (d : Deployment). on_day k d && d.is_success) ds);
  failed = length (filter (λ (d : Deployment). on_day k d && is_failed d.status) ds);
}

abbrev day_entry : (date total success failed : ℕ) → DayCount
day_entry date total success failed = record {
  date = date;
  total = total;
  success = success;
  failed = failed;
}

entry_eq :
    (date : ℕ) {t t' s s' f f' : ℕ}
    → t ≡ t'
    → s ≡ s'
    → f ≡ f'
    → day_entry date t s f ≡ day_entry date t' s' f'
entry_eq date p q r = rw (p, q, r) refl

tally-count :
    (k : ℕ) (ds : List Deployment) (e : DayCount)
    → tally count_deployment k ds e
      ≡ day_entry e.date
          (e.total + (day_count ds k).total)
          (e.success + (day_count ds k).success)
          (e.failed + (day_count ds k).failed)
tally-count k [] e = entry_eq e.date (omega arith) (omega arith) (omega arith)
tally-count k (d ∷ ds) e = elim (Bool-cases (on_day k d)) [
  | inr other ↦ rw other (tally-count k ds e)
  | inl same ↦ rw same (
      tally-count k ds (count_deployment d e)
      ∙ entry_eq e.date (omega arith) (one_more d.is_success e.success _)
          (one_more (is_failed d.status) e.failed _))
]
  where
    one_more :
        (b : Bool) (n : ℕ) (xs : List Deployment)
        → (if b then suc n else n) + length xs ≡ n + length (if b then d ∷ xs else xs)
    one_more true n xs = omega arith
    one_more false n xs = refl

tally-day_count :
    (ds : List Deployment) (k : ℕ) → tally count_deployment k ds (no_deployments k) ≡ day_count ds k
tally-day_count ds k =
    tally-count k ds (no_deployments k) ∙ entry_eq k (omega arith) (omega arith) (omega arith)

-- The days of the map are those from the start on.
pub days_of :
    {V : Type 0} (fresh : ℕ → V) (start finish : ℕ)
    → start ≤ finish
    → init_days fresh (rounds start finish) start finish []
      ≡ table fresh (days_from (day_of start) (rounds start finish))
unfolding rounds
days_of fresh start finish le =
    init_days-table fresh (rounds start finish) start finish [] (omega (arith, le)) tt

group_by_day-eq :
    (ds : List Deployment) (start finish : ℕ)
    → start ≤ finish
    → group_by_day ds start finish
      ≡ map (day_count ds) (days_from (day_of start) (rounds start finish))
unfolding group_by_day
group_by_day-eq ds start finish le =
    rw
      (
        days_of no_deployments start finish le,
        fill_days-table count_deployment ds no_deployments
            (days_from (day_of start) (rounds start finish)),
        values-table (λ k. tally count_deployment k ds (no_deployments k))
            (days_from (day_of start) (rounds start finish)),
      )
      (ap
          (λ f.
            sort_days (λ (e : DayCount). e.date)
              (map f (days_from (day_of start) (rounds start finish))))
          (fun_ext (tally-day_count ds))
        ∙ sort_days-days_from (λ (e : DayCount). e.date) (day_count ds) (λ k. refl)
            (rounds start finish) (day_of start))

abbrev pub sum_of : List DayCount → ℕ
sum_of [] = 0
sum_of (e ∷ es) = e.total + sum_of es

abbrev in_days : (first n : ℕ) → Deployment → Bool
in_days first n d = leb first (day_of d.started_at) && ltb (day_of d.started_at) (first + n)

filter-in_days :
    (first n : ℕ) (ds : List Deployment)
    → length (filter (on_day first) ds) + length (filter (in_days (suc first) n) ds)
      ≡ length (filter (in_days first (suc n)) ds)
filter-in_days first n [] = omega arith
filter-in_days first n (d ∷ ds) = ground (arith, filter-in_days first n ds)

filter_none : (first : ℕ) (ds : List Deployment) → 0 ≡ length (filter (in_days first 0) ds)
filter_none first [] = refl
filter_none first (d ∷ ds) = ground (arith, filter_none first ds)

sum_of-days :
    (ds : List Deployment) (n first : ℕ)
    → sum_of (map (day_count ds) (days_from first n)) ≡ length (filter (in_days first n) ds)
sum_of-days ds zero first = filter_none first ds
sum_of-days ds (suc n) first = rw (sum_of-days ds n (suc first)) (filter-in_days first n ds)

filter_all :
    {A : Type 0} (p : A → Bool) (xs : List A)
    → ((x : A) → In x xs → p x ≡ true)
    → length (filter p xs) ≡ length xs
filter_all p [] h = refl
filter_all p (x ∷ xs) h = rw (h x (inl refl)) (ap suc (filter_all p xs (λ y k. h y (inr k))))

pub rounds_lem : (now : ℕ) → 30 * day ≤ now → rounds (now - 30 * day) now ≡ 31
unfolding rounds
rounds_lem now late = omega (arith, late)

-- The chart of the last thirty days, of deployments that started in them, has one entry for each of
-- 31 consecutive days up to today, in their order, which counts the deployments of that day, those
-- that succeeded and those that failed; and the totals of the entries sum up to the number of the
-- deployments, so that none is lost or counted twice.
pub group_by_day_lem :
    (ds : List Deployment) (now : ℕ)
    → 30 * day ≤ now
    → ((d : Deployment) → In d ds → (now - 30 * day ≤ d.started_at) × (d.started_at ≤ now))
    → (group_by_day ds (now - 30 * day) now ≡ map (day_count ds) (days_from (day_of now - 30) 31))
      × (sum_of (group_by_day ds (now - 30 * day) now) ≡ length ds)
group_by_day_lem ds now late recent =
    let le : now - 30 * day ≤ now = omega (arith, late) in
    let first : day_of (now - 30 * day) ≡ day_of now - 30 = omega (arith, late) in
    let many : rounds (now - 30 * day) now ≡ 31 = rounds_lem now late in
    let chart : group_by_day ds (now - 30 * day) now
        ≡ map (day_count ds) (days_from (day_of now - 30) 31) =
      group_by_day-eq ds (now - 30 * day) now le ∙ rw (first, many) refl in
    (
      chart,
      ap sum_of chart
          ∙ sum_of-days ds 31 (day_of now - 30)
          ∙ filter_all (in_days (day_of now - 30) 31) ds (λ d mine.
            let (after, before) = recent d mine in ground (arith, after, before, late)),
    )
