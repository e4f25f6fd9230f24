-- ===== src/Deployments/Paging.antt =====
-- The pages of a deployment's log (`getLogs`).
use code2cloud.Prelude.{
  ℕ, zero, suc, String, ◌≤◌, ◌≡◌, refl, ap, true, Option, none, some, List, [], ◌∷◌, ◌⊎◌, inl, inr,
  In, take, last?, length, min, arith, Bool-cases, ltb,
}
use code2cloud.Schema.{DeploymentStatus, LogEntry}
use code2cloud.Prisma.{Prisma, IsAscending}
use code2cloud.Prisma.Laws.{In-filter, filter-In}
use code2cloud.Deployments.{LogOptions, log_where, log_page, page_size}

module _ {Row : Type 0} (key : Row → ℕ) where
  head-le : (x r : Row) (xs : List Row) → IsAscending key (x ∷ xs) → In r xs → key x ≤ key r
  head-le x r [] a h = elim h [ ]
  head-le x r (y ∷ ys) (le, a) (inl e) = rw e le
  head-le x r (y ∷ ys) (le, a) (inr h) = omega (arith, head-le y r ys a h)

  -- A row beyond a cut comes after the last row before it.
  take_or_after :
      (n : ℕ) (r : Row) (xs : List Row)
      → IsAscending key xs
      → In r xs
      → In r (take (suc n) xs)
        ⊎ ((l : Row) × (last? (take (suc n) xs) ≡ some l)
            × (key l ≤ key r)
            × In l xs
            × (length (take (suc n) xs) ≡ suc n))
  take_or_after n r [] a h = elim h [ ]
  take_or_after n r (x ∷ []) a (inl e) = inl (inl e)
  take_or_after n r (x ∷ []) a (inr h) = elim h [ ]
  take_or_after zero r (x ∷ y ∷ ys) a (inl e) = inl (inl e)
  take_or_after zero r (x ∷ y ∷ ys) a (inr h) =
      inr (x, refl, head-le x r (y ∷ ys) a h, inl refl, refl)
  take_or_after (suc n) r (x ∷ y ∷ ys) (le, a) (inl e) = inl (inl e)
  take_or_after (suc n) r (x ∷ y ∷ ys) (le, a) (inr h) = elim (take_or_after n r (y ∷ ys) a h) [
    | inl k ↦ inl (inr k)
    | inr (l, e, below, k, full) ↦ inr (l, e, below, inr k, ap suc full)
  ]

  pub In-take : (n : ℕ) (r : Row) (xs : List Row) → In r (take n xs) → In r xs
  In-take zero r xs h = elim h [ ]
  In-take (suc n) r [] h = elim h [ ]
  In-take (suc n) r (x ∷ xs) (inl e) = inl e
  In-take (suc n) r (x ∷ xs) (inr h) = inr (In-take n r xs h)

module _ {Row : Type 0} where
  pub In-last : (l : Row) (xs : List Row) → last? xs ≡ some l → In l xs
  In-last l [] e = absurd (cc)
  In-last l (x ∷ []) e = inl (ground arith)
  In-last l (x ∷ y ∷ ys) e = inr (In-last l (y ∷ ys) e)

  pub length-take_le : (n : ℕ) (xs : List Row) → length (take n xs) ≤ n
  length-take_le zero xs = omega arith
  length-take_le (suc n) [] = omega arith
  length-take_le (suc n) (x ∷ xs) = omega (arith, length-take_le n xs)

-- A log that the options ask for is asked for after any earlier cursor.
log_where-later :
    (id : String) (o : LogOptions) (r : LogEntry) (c : ℕ)
    → log_where id o r ≡ true
    → ltb c r.timestamp ≡ true
    → log_where id (record o { after = some c }) r ≡ true
log_where-later id o r c e h = ground arith

page_size_pos : (limit : Option ℕ) → (n : ℕ) × (page_size limit ≡ suc n) × (suc n ≤ 500)
page_size_pos none = (199, refl, omega arith)
page_size_pos (some zero) = (199, refl, omega arith)
page_size_pos (some (suc n)) = (min n 499, ground arith, omega arith)

module _ ⦃prisma : Prisma⦄ (table : List LogEntry) (status : DeploymentStatus) (id : String)
    (o : LogOptions) where
  abbrev matching : List LogEntry
  matching =
      prisma.order_asc (λ (l : LogEntry). l.timestamp) (prisma.find_many (log_where id o) table)

  matching_sound : (r : LogEntry) → In r matching → (log_where id o r ≡ true) × In r table
  matching_sound r h =
      In-filter (log_where id o) r table
        (rw (prisma.find_many_lem (log_where id o) table) at ((prisma.order_asc_same _ _ r).0 h))

  matching_complete : (r : LogEntry) → In r table → log_where id o r ≡ true → In r matching
  matching_complete r h e =
      (prisma.order_asc_same _ _ r).1
        (rw (prisma.find_many_lem (log_where id o) table) (filter-In (log_where id o) r table e h))

  -- A page holds at most 500 logs, and only logs of the table that the options ask for.
  pub page_sound :
      (length (log_page table status id o).logs ≤ 500)
      × ((r : LogEntry)
          → In r (log_page table status id o).logs
          → (log_where id o r ≡ true) × In r table)
  unfolding log_page
  page_sound =
      let (n, size, bound) = page_size_pos o.limit in
      (
        rw size (omega (arith, length-take_le (suc n) matching, bound)),
        λ r h. matching_sound r (In-take (λ (l : LogEntry). l.timestamp) _ r _ h),
      )

  -- A log that the options ask for, and that shares its time with no other such log, is on the page,
  -- or the page says that there is more and the log is asked for after the page's cursor.
  pub page_complete :
      (r : LogEntry)
      → In r table
      → log_where id o r ≡ true
      → ((s : LogEntry) → In s table → log_where id o s ≡ true → s.timestamp ≡ r.timestamp → s ≡ r)
      → In r (log_page table status id o).logs
        ⊎ ((log_page table status id o).has_more ≡ true)
          × ((c : ℕ) × ((log_page table status id o).next_cursor ≡ some c)
              × (log_where id (record o { after = some c }) r ≡ true))
  unfolding log_page
  page_complete r h e distinct =
      let (n, size, _) = page_size_pos o.limit in
      elim (take_or_after (λ (l : LogEntry). l.timestamp) n r matching (prisma.order_asc_sorted _ _)
        (matching_complete r h e)) [
          | inl k ↦ inl (rw size k)
          | inr (l, last, below, k, full) ↦ elim (Bool-cases (ltb l.timestamp r.timestamp)) [
            | inr tied ↦
                let (holds, among) = matching_sound l k in
                let same : l ≡ r = distinct l among holds (ground arith) in
                inl (rw (size, ← same) (In-last l _ last))
            | inl later ↦ inr (
              rw (size, full) (ground arith),
              (l.timestamp, rw (size, last) refl, log_where-later id o r l.timestamp e later),
            )
          ]
        ]
