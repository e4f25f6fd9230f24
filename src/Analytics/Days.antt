-- ===== src/Analytics/Days.antt =====
-- The maps of days, as tables over consecutive days.
use mathlib.Core.List.{append-nil, append_assoc}
use code2cloud.Prelude.{
  ℕ, zero, suc, ◌≤◌, ◌<◌, ◌≡◌, ◌+◌, ◌*◌, refl, sym, ap, ◌∙◌, Bool, true, List, [], ◌∷◌, ◌++◌, map,
  leb, nat_eq, if◌then◌else◌, All, All-append, arith,
}
use code2cloud.Schema.{Deployment}
use code2cloud.Analytics.{
  day, day_of, DayMap, set_day, change_day, init_days, fill_days, insert_day, sort_days, values,
}

-- Consecutive days.
abbrev pub days_from : ℕ → ℕ → List ℕ
days_from a zero = []
days_from a (suc n) = a ∷ days_from (suc a) n

abbrev pub on_day : ℕ → Deployment → Bool
on_day k d = nat_eq k (day_of d.started_at)

module _ {V : Type 0} where
  abbrev pub table : (ℕ → V) → List ℕ → DayMap V
  table f [] = []
  table f (k ∷ ks) = (k, f k) ∷ table f ks

  abbrev IsBefore : ℕ → ℕ × V → Type 0
  IsBefore k e = e.0 < k

  set_day-new :
      (k : ℕ) (v : V) (m : DayMap V) → All (IsBefore k) m → set_day k v m ≡ m ++ (k, v) ∷ []
  set_day-new k v [] h = refl
  set_day-new k v ((j, w) ∷ m) (lt, h) = ground (arith, set_day-new k v m h)

  IsBefore-later : (k : ℕ) (m : DayMap V) → All (IsBefore k) m → All (IsBefore (suc k)) m
  IsBefore-later k [] h = tt
  IsBefore-later k (e ∷ m) (lt, h) = (omega arith, IsBefore-later k m h)

  -- The loop makes a new entry for each day from the first on.
  pub init_days-table :
      (fresh : ℕ → V) (n current finish : ℕ) (m : DayMap V)
      → current + n * day ≤ finish + day
      → All (IsBefore (day_of current)) m
      → init_days fresh n current finish m ≡ m ++ table fresh (days_from (day_of current) n)
  init_days-table fresh zero current finish m le before = sym (append-nil m)
  init_days-table fresh (suc n) current finish m le before =
      let k = day_of current in
      let next_day : day_of (current + day) ≡ suc k = omega arith in
      let within : leb current finish ≡ true = ground arith in
      let le' : current + day + n * day ≤ finish + day = omega (arith, le) in
      let new = set_day-new k (fresh k) m before in
      let before' : All (IsBefore (day_of (current + day))) (set_day k (fresh k) m) =
        rw (next_day, new)
          (All-append (IsBefore (suc k)) m ((k, fresh k) ∷ []) (IsBefore-later k m before)
            (omega arith, tt)) in
      let rest =
        init_days-table fresh n (current + day) finish (set_day k (fresh k) m) le' before' in
      rw (within, rest, next_day, new)
        (append_assoc m ((k, fresh k) ∷ []) (table fresh (days_from (suc k) n)))

  module _ (count : Deployment → V → V) where
    -- What the deployments of a day make of its entry.
    abbrev pub tally : ℕ → List Deployment → V → V
    tally k [] v = v
    tally k (d ∷ ds) v = tally k ds (if on_day k d then count d v else v)

    change_day-table :
        (d : Deployment) (f : ℕ → V) (ks : List ℕ)
        → change_day (day_of d.started_at) (count d) (table f ks)
          ≡ table (λ k. if on_day k d then count d (f k) else f k) ks
    change_day-table d f [] = refl
    change_day-table d f (k ∷ ks) =
        ap (λ m. (k, if on_day k d then count d (f k) else f k) ∷ m) (change_day-table d f ks)

    pub fill_days-table :
        (ds : List Deployment) (f : ℕ → V) (ks : List ℕ)
        → fill_days count ds (table f ks) ≡ table (λ k. tally k ds (f k)) ks
    fill_days-table [] f ks = refl
    fill_days-table (d ∷ ds) f ks =
        ap (fill_days count ds) (change_day-table d f ks)
        ∙ fill_days-table ds (λ k. if on_day k d then count d (f k) else f k) ks

  pub values-table : (f : ℕ → V) (ks : List ℕ) → values (table f ks) ≡ map f ks
  values-table f [] = refl
  values-table f (k ∷ ks) = ap (λ vs. f k ∷ vs) (values-table f ks)

module _ {V : Type 0} (date : V → ℕ) (f : ℕ → V) (dated : (k : ℕ) → date (f k) ≡ k) where
  -- Consecutive days are in order already.
  pub sort_days-days_from :
      (n a : ℕ) → sort_days date (map f (days_from a n)) ≡ map f (days_from a n)
  sort_days-days_from zero a = refl
  sort_days-days_from (suc n) a = rw (sort_days-days_from n (suc a)) (at_head n)
    where
      at_head :
          (n : ℕ)
          → insert_day date (f a) (map f (days_from (suc a) n)) ≡ f a ∷ map f (days_from (suc a) n)
      at_head zero = refl
      at_head (suc n) =
          let le : leb (date (f a)) (date (f (suc a))) ≡ true =
            rw (dated a, dated (suc a)) (ground arith) in
          rw le refl
