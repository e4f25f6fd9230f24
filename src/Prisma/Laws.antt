-- ===== src/Prisma/Laws.antt =====
-- What the queries do to the members of a table.
use code2cloud.Prelude.{
  ◌≡◌, refl, Bool, true, List, [], ◌∷◌, inl, inr, filter, In, if◌then◌else◌, arith, Bool-cases,
}
use code2cloud.Prelude.{ap}
use code2cloud.Prisma.{change_where}

module _ {Row : Type 0} where
  pub In-filter :
      (p : Row → Bool) (r : Row) (t : List Row) → In r (filter p t) → (p r ≡ true) × In r t
  In-filter p r [] h = elim h [ ]
  In-filter p r (x ∷ t) h = elim (Bool-cases (p x)) [
    | inl e ↦ ground (arith, In-filter p r t)
    | inr e ↦ ground (arith, In-filter p r t)
  ]

  pub filter-In :
      (p : Row → Bool) (r : Row) (t : List Row) → p r ≡ true → In r t → In r (filter p t)
  filter-In p r [] e h = elim h [ ]
  filter-In p r (x ∷ t) e (inl q) = ground arith
  filter-In p r (x ∷ t) e (inr h) = ground (arith, filter-In p r t e h)

  -- A row that is in a table is in the changed table, changed if the test holds.
  pub In-change_where :
      (p : Row → Bool) (f : Row → Row) (r : Row) (t : List Row)
      → In r t
      → In (if p r then f r else r) (change_where p f t)
  In-change_where p f r [] h = elim h [ ]
  In-change_where p f r (x ∷ t) (inl e) = inl (ap (λ y. if p y then f y else y) e)
  In-change_where p f r (x ∷ t) (inr h) = inr (In-change_where p f r t h)

  -- A row of the changed table comes from a row of the table.
  pub change_where-In :
      (p : Row → Bool) (f : Row → Row) (r : Row) (t : List Row)
      → In r (change_where p f t)
      → (x : Row) × In x t × (r ≡ (if p x then f x else x))
  change_where-In p f r [] h = elim h [ ]
  change_where-In p f r (x ∷ t) (inl e) = (x, inl refl, e)
  change_where-In p f r (x ∷ t) (inr h) = let (y, k, e) = change_where-In p f r t h in (y, inr k, e)
