-- ===== src/LogStream/Page.antt =====
-- What an answer of `getLogs` gives to a viewer, if no two logs of the deployment share a time.
use mathlib.Core.Option
use mathlib.Core.Bool.{false≢true}
use code2cloud.Prelude.{
  ◌≢◌, ℕ, zero, suc, String, ◌≤◌, ◌<◌, ◌≡◌, refl, sym, ap, ◌∙◌, subst, Bool, true, false, Option,
  none, some, List, [], ◌∷◌, ◌++◌, ◌⊎◌, inl, inr, In, take, last?, length, filter, arith,
  Bool-cases, nat_eq, ltb, ◌&&◌, ◌==◌, ltb→lt, and_left,
}
use code2cloud.Schema.{DeploymentStatus, LogEntry}
use code2cloud.Prisma.{Prisma, IsAscending}
use code2cloud.Prisma.Laws.{In-filter, filter-In}
use code2cloud.Deployments.Paging.{In-take}
use code2cloud.Deployments.{LogOptions, LogPage, log_where, log_page}

module _ {Row : Type 0} (key : Row → ℕ) where
  abbrev pub IsStrict : List Row → Type 0
  IsStrict [] = Unit
  IsStrict (x ∷ []) = Unit
  IsStrict (x ∷ y ∷ ys) = (key x < key y) × IsStrict (y ∷ ys)

  abbrev at_time : ℕ → Row → Bool
  at_time k r = nat_eq (key r) k

  count_tail :
      (x : Row) (xs : List Row) (k : ℕ)
      → length (filter (at_time k) xs) ≤ length (filter (at_time k) (x ∷ xs))
  count_tail x xs k = ground arith

  count_pair :
      (x y : Row) (ys : List Row)
      → key x ≡ key y
      → 2 ≤ length (filter (at_time (key x)) (x ∷ y ∷ ys))
  count_pair x y ys e = ground arith

  -- An ascending list in which no key comes twice.
  IsAscending-IsStrict :
      (xs : List Row)
      → IsAscending key xs
      → ((k : ℕ) → length (filter (at_time k) xs) ≤ 1)
      → IsStrict xs
  IsAscending-IsStrict [] a h = tt
  IsAscending-IsStrict (x ∷ []) a h = tt
  IsAscending-IsStrict (x ∷ y ∷ ys) (le, a) h = elim (Bool-cases (ltb (key x) (key y))) [
    | inl less ↦ (
      ltb→lt _ _ less,
      IsAscending-IsStrict (y ∷ ys) a (λ k. omega (arith, h k, count_tail x (y ∷ ys) k)),
    )
    | inr tied ↦
        let same : key x ≡ key y = ground arith in
        absurd (omega (arith, h (key x), count_pair x y ys same))
  ]

  head-lt : (x r : Row) (xs : List Row) → IsStrict (x ∷ xs) → In r xs → key x < key r
  head-lt x r [] s h = elim h [ ]
  head-lt x r (y ∷ ys) (lt, s) (inl e) = rw e lt
  head-lt x r (y ∷ ys) (lt, s) (inr h) = omega (arith, head-lt y r ys s h)

  IsStrict-tail : (x : Row) (xs : List Row) → IsStrict (x ∷ xs) → IsStrict xs
  IsStrict-tail x [] s = tt
  IsStrict-tail x (y ∷ ys) s = s.1

  IsStrict-cons :
      (x : Row) (xs : List Row)
      → IsStrict xs
      → ((r : Row) → In r xs → key x < key r)
      → IsStrict (x ∷ xs)
  IsStrict-cons x [] s h = tt
  IsStrict-cons x (y ∷ ys) s h = (h y (inl refl), s)

  IsStrict-take : (n : ℕ) (xs : List Row) → IsStrict xs → IsStrict (take n xs)
  IsStrict-take zero xs s = tt
  IsStrict-take (suc n) [] s = tt
  IsStrict-take (suc n) (x ∷ xs) s =
      IsStrict-cons x (take n xs) (IsStrict-take n xs (IsStrict-tail x xs s))
        (λ r h. head-lt x r xs s (In-take key n r xs h))

  pub IsStrict-append :
      (xs ys : List Row)
      → IsStrict xs
      → IsStrict ys
      → ((x y : Row) → In x xs → In y ys → key x < key y)
      → IsStrict (xs ++ ys)
  IsStrict-append [] ys s t h = t
  IsStrict-append (x ∷ []) ys s t h = IsStrict-cons x ys t (λ r k. h x r (inl refl) k)
  IsStrict-append (x ∷ z ∷ zs) ys (lt, s) t h =
      (lt, IsStrict-append (z ∷ zs) ys s t (λ a b i j. h a b (inr i) j))

  -- A row beyond a cut comes strictly after the last row before it.
  take_or_later :
      (n : ℕ) (r : Row) (xs : List Row)
      → IsStrict xs
      → In r xs
      → In r (take (suc n) xs) ⊎ ((l : Row) × (last? (take (suc n) xs) ≡ some l) × (key l < key r))
  take_or_later n r [] s h = elim h [ ]
  take_or_later n r (x ∷ []) s (inl e) = inl (inl e)
  take_or_later n r (x ∷ []) s (inr h) = elim h [ ]
  take_or_later zero r (x ∷ y ∷ ys) s (inl e) = inl (inl e)
  take_or_later zero r (x ∷ y ∷ ys) s (inr h) = inr (x, refl, head-lt x r (y ∷ ys) s h)
  take_or_later (suc n) r (x ∷ y ∷ ys) (lt, s) (inl e) = inl (inl e)
  take_or_later (suc n) r (x ∷ y ∷ ys) (lt, s) (inr h) = elim (take_or_later n r (y ∷ ys) s h) [
    | inl k ↦ inl (inr k)
    | inr (l, e, later) ↦ inr (l, e, later)
  ]

  pub last-le :
      (r l : Row) (xs : List Row) → IsStrict xs → In r xs → last? xs ≡ some l → key r ≤ key l
  last-le r l [] s h e = elim h [ ]
  last-le r l (x ∷ []) s (inl q) e = ground arith
  last-le r l (x ∷ []) s (inr h) e = elim h [ ]
  last-le r l (x ∷ y ∷ ys) (lt, s) (inl q) e =
      omega (arith, ap key q, last-le y l (y ∷ ys) s (inl refl) e)
  last-le r l (x ∷ y ∷ ys) (lt, s) (inr h) e = last-le r l (y ∷ ys) s h e

  pub last_some : (x : Row) (xs : List Row) → (l : Row) × (last? (x ∷ xs) ≡ some l) × In l (x ∷ xs)
  last_some x [] = (x, refl, inl refl)
  last_some x (y ∷ ys) = let (l, e, h) = last_some y ys in (l, e, inr h)

abbrev pub is_some : {A : Type 0} → Option A → Bool
is_some none = false
is_some (some a) = true

some-inj : (l m : LogEntry) → ◌≡◌ {A = Option LogEntry} (some l) (some m) → l ≡ m
some-inj l m e = cc

abbrev pub time_of : LogEntry → ℕ
time_of l = l.timestamp

-- No two logs of the deployment share a time.
abbrev pub HasDistinctTimes : String → List LogEntry → Type 0
HasDistinctTimes id table =
    (k : ℕ)
    → length (filter (λ (l : LogEntry). (l.deployment_id == id) && nat_eq l.timestamp k) table) ≤ 1

count_both :
    (id : String) (o : LogOptions) (k : ℕ) (table : List LogEntry)
    → length (filter (at_time time_of k) (filter (log_where id o) table))
      ≤ length (filter (λ (l : LogEntry). (l.deployment_id == id) && nat_eq l.timestamp k) table)
count_both id o k [] = omega arith
count_both id o k (l ∷ table) = elim (Bool-cases (log_where id o l)) [
  | inr skipped ↦ rw skipped (ground (arith, count_both id o k table))
  | inl asked ↦
      rw (asked, and_left (l.deployment_id == id) _ asked) (ground (arith, count_both id o k table))
]

-- The logs of a page ascend, are in the table and asked for, and every log that is asked for and is
-- not among them comes later than all of them.
pub record IsPage (table : List LogEntry) (id : String) (o : LogOptions) (p : LogPage)
    : Type 0 where
  pub ascends : IsStrict time_of p.logs
  pub sound : (r : LogEntry) → In r p.logs → (log_where id o r ≡ true) × In r table
  pub next : p.next_cursor ≡ Option.map time_of (last? p.logs)
  pub complete :
      (r : LogEntry)
      → In r table
      → log_where id o r ≡ true
      → In r p.logs ⊎ ((l : LogEntry) → last? p.logs ≡ some l → l.timestamp < r.timestamp)

module _ ⦃prisma : Prisma⦄ (table : List LogEntry) (status : DeploymentStatus) (id : String)
    (o : LogOptions) (distinct : HasDistinctTimes id table) (sized : o.limit ≡ some 200) where
  abbrev asked : List LogEntry
  asked = prisma.order_asc time_of (prisma.find_many (log_where id o) table)

  asked_sound : (r : LogEntry) → In r asked → (log_where id o r ≡ true) × In r table
  asked_sound r h =
      In-filter (log_where id o) r table
        (rw (prisma.find_many_lem (log_where id o) table) at ((prisma.order_asc_same _ _ r).0 h))

  asked_complete : (r : LogEntry) → In r table → log_where id o r ≡ true → In r asked
  asked_complete r h e =
      (prisma.order_asc_same _ _ r).1
        (rw (prisma.find_many_lem (log_where id o) table) (filter-In (log_where id o) r table e h))

  asked-IsStrict : IsStrict time_of asked
  asked-IsStrict = IsAscending-IsStrict time_of asked (prisma.order_asc_sorted _ _) (λ k.
      let same =
        prisma.order_asc_count time_of (at_time time_of k)
          (prisma.find_many (log_where id o) table) in
      rw (same, prisma.find_many_lem (log_where id o) table)
        (omega (arith, distinct k, count_both id o k table)))

  log_page-logs : (log_page table status id o).logs ≡ take 200 asked
  unfolding log_page
  log_page-logs = rw sized refl

  page_or_later :
      (r : LogEntry)
      → In r table
      → log_where id o r ≡ true
      → In r (take 200 asked)
        ⊎ ((l : LogEntry) × (last? (take 200 asked) ≡ some l) × (l.timestamp < r.timestamp))
  page_or_later r h e = take_or_later time_of 199 r asked asked-IsStrict (asked_complete r h e)

  pub log_page-IsPage : IsPage table id o (log_page table status id o)
  unfolding log_page
  log_page-IsPage = record {
    ascends = rw log_page-logs (IsStrict-take time_of 200 asked asked-IsStrict);
    sound = λ r h. asked_sound r (In-take time_of 200 r asked (subst (In r) log_page-logs h));
    next = refl;
    complete = λ r h e. rw log_page-logs (elim (page_or_later r h e) [
      | inl k ↦ inl k
      | inr (l, last, later) ↦
          inr
            (λ m end. subst (λ x. x.timestamp < r.timestamp) (some-inj l m (sym last ∙ end)) later)
    ]);
  }

  -- A page is not empty while there is a log to ask for.
  pub log_page_nonempty :
      (r : LogEntry) → In r table → log_where id o r ≡ true → (log_page table status id o).logs ≢ []
  log_page_nonempty r h e empty =
      let none_left : take 200 asked ≡ [] = sym log_page-logs ∙ empty in
      elim (page_or_later r h e) [
        | inl k ↦ elim (subst (In r) none_left k) [ ]
        | inr (l, last, _) ↦ absurd (false≢true (ap is_some (ap last? (sym none_left) ∙ last)))
      ]
