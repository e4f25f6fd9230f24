-- ===== src/Tests/Sorting.antt =====
-- A table sorted by a key, for the concrete client.
use code2cloud.Prelude.{
  ℕ, suc, ◌≡◌, refl, Bool, List, [], ◌∷◌, ◌↔◌, In, leb, length, filter, if◌then◌else◌, arith, ap,
  ◌∙◌, ◌⊎◌,
}
use code2cloud.Prisma.{IsAscending, IsDescending}

module _ {Row : Type 0} (key : Row → ℕ) where
  abbrev pub insert_asc : Row → List Row → List Row
  insert_asc r [] = r ∷ []
  insert_asc r (x ∷ xs) =
      let rest = insert_asc r xs in if leb (key r) (key x) then r ∷ x ∷ xs else x ∷ rest

  abbrev pub sort_asc : List Row → List Row
  sort_asc [] = []
  sort_asc (x ∷ xs) = insert_asc x (sort_asc xs)

  abbrev pub insert_desc : Row → List Row → List Row
  insert_desc r [] = r ∷ []
  insert_desc r (x ∷ xs) =
      let rest = insert_desc r xs in if leb (key x) (key r) then r ∷ x ∷ xs else x ∷ rest

  abbrev pub sort_desc : List Row → List Row
  sort_desc [] = []
  sort_desc (x ∷ xs) = insert_desc x (sort_desc xs)

  insert_asc-IsAscending :
      (r : Row) (xs : List Row) → IsAscending key xs → IsAscending key (insert_asc r xs)
  insert_asc-IsAscending r [] h = tt
  insert_asc-IsAscending r (x ∷ []) h = ground arith
  insert_asc-IsAscending r (x ∷ y ∷ ys) (le, h) =
      ground (arith, insert_asc-IsAscending r (y ∷ ys) h)

  pub sort_asc-IsAscending : (xs : List Row) → IsAscending key (sort_asc xs)
  sort_asc-IsAscending [] = tt
  sort_asc-IsAscending (x ∷ xs) = insert_asc-IsAscending x (sort_asc xs) (sort_asc-IsAscending xs)

  insert_desc-IsDescending :
      (r : Row) (xs : List Row) → IsDescending key xs → IsDescending key (insert_desc r xs)
  insert_desc-IsDescending r [] h = tt
  insert_desc-IsDescending r (x ∷ []) h = ground arith
  insert_desc-IsDescending r (x ∷ y ∷ ys) (le, h) =
      ground (arith, insert_desc-IsDescending r (y ∷ ys) h)

  pub sort_desc-IsDescending : (xs : List Row) → IsDescending key (sort_desc xs)
  sort_desc-IsDescending [] = tt
  sort_desc-IsDescending (x ∷ xs) =
      insert_desc-IsDescending x (sort_desc xs) (sort_desc-IsDescending xs)

  In-insert_asc : (r x : Row) (xs : List Row) → In r (insert_asc x xs) ↔ ((r ≡ x) ⊎ In r xs)
  In-insert_asc r x [] = (λ h. h, λ h. h)
  In-insert_asc r x (y ∷ ys) = ground (arith, In-insert_asc r x ys)

  In-insert_desc : (r x : Row) (xs : List Row) → In r (insert_desc x xs) ↔ ((r ≡ x) ⊎ In r xs)
  In-insert_desc r x [] = (λ h. h, λ h. h)
  In-insert_desc r x (y ∷ ys) = ground (arith, In-insert_desc r x ys)

  pub In-sort_asc : (r : Row) (xs : List Row) → In r (sort_asc xs) ↔ In r xs
  In-sort_asc r [] = (λ h. h, λ h. h)
  In-sort_asc r (x ∷ xs) = ground (arith, In-insert_asc r x (sort_asc xs), In-sort_asc r xs)

  pub In-sort_desc : (r : Row) (xs : List Row) → In r (sort_desc xs) ↔ In r xs
  In-sort_desc r [] = (λ h. h, λ h. h)
  In-sort_desc r (x ∷ xs) = ground (arith, In-insert_desc r x (sort_desc xs), In-sort_desc r xs)

  length-insert_asc : (r : Row) (xs : List Row) → length (insert_asc r xs) ≡ suc (length xs)
  length-insert_asc r [] = refl
  length-insert_asc r (x ∷ xs) = ground (arith, length-insert_asc r xs)

  pub length-sort_asc : (xs : List Row) → length (sort_asc xs) ≡ length xs
  length-sort_asc [] = refl
  length-sort_asc (x ∷ xs) = length-insert_asc x (sort_asc xs) ∙ ap suc (length-sort_asc xs)

  length-filter-insert_asc :
      (p : Row → Bool) (r : Row) (xs : List Row)
      → length (filter p (insert_asc r xs)) ≡ length (filter p (r ∷ xs))
  length-filter-insert_asc p r [] = refl
  length-filter-insert_asc p r (x ∷ xs) = ground (arith, length-filter-insert_asc p r xs)

  pub length-filter-sort_asc :
      (p : Row → Bool) (xs : List Row) → length (filter p (sort_asc xs)) ≡ length (filter p xs)
  length-filter-sort_asc p [] = refl
  length-filter-sort_asc p (x ∷ xs) =
      ground (arith, length-filter-insert_asc p x (sort_asc xs), length-filter-sort_asc p xs)
