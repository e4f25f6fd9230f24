-- ===== src/Tests/Grouping.antt =====
-- A table grouped by a key, for the concrete client, and the charts of a database.
use code2cloud.Prelude.{
  ℕ, suc, String, ◌≤◌, ◌≡◌, ◌⊎◌, ◌↔◌, refl, sym, ap, ◌∙◌, subst, List, [], ◌∷◌, ◌==◌, eq_iff, In,
  map, filter, length, inl, inr, arith, if◌then◌else◌, Bool-cases, In-map,
}
use code2cloud.Analytics.Overview.{GroupBy}

abbrev without : String → List String → List String
without k [] = []
without k (j ∷ js) = let rest = without k js in if j == k then rest else j ∷ rest

abbrev distinct : List String → List String
distinct [] = []
distinct (k ∷ ks) = k ∷ without k (distinct ks)

In-without : (k x : String) (ks : List String) → In x (without k ks) → In x ks
In-without k x [] h = h
In-without k x (j ∷ js) h = ground (arith, In-without k x js)

without-In : (k x : String) (ks : List String) → In x ks → (x ≡ k) ⊎ In x (without k ks)
without-In k x [] h = inr h
without-In k x (j ∷ js) (inl e) = elim (Bool-cases (j == k)) [
  | inl same ↦ inl (e ∙ (eq_iff j k).0 same)
  | inr other ↦ inr (rw other (inl e))
]
without-In k x (j ∷ js) (inr h) = ground (arith, without-In k x js h)

In-distinct : (x : String) (ks : List String) → In x (distinct ks) → In x ks
In-distinct x [] h = h
In-distinct x (k ∷ ks) (inl e) = inl e
In-distinct x (k ∷ ks) (inr h) = inr (In-distinct x ks (In-without k x (distinct ks) h))

distinct-In : (x : String) (ks : List String) → In x ks → In x (distinct ks)
distinct-In x [] h = h
distinct-In x (k ∷ ks) (inl e) = inl e
distinct-In x (k ∷ ks) (inr h) = without-In k x (distinct ks) (distinct-In x ks h)

abbrev times : String → List String → ℕ
times x ks = length (filter (λ k. k == x) ks)

times-without : (k x : String) (ks : List String) → times x (without k ks) ≤ times x ks
times-without k x [] = omega arith
times-without k x (j ∷ js) = ground (arith, times-without k x js)

times_gone : (k : String) (ks : List String) → times k (without k ks) ≡ 0
times_gone k [] = refl
times_gone k (j ∷ js) = ground (arith, times_gone k js)

times-distinct : (x : String) (ks : List String) → times x (distinct ks) ≤ 1
times-distinct x [] = omega arith
times-distinct x (k ∷ ks) = elim (Bool-cases (k == x)) [
  | inl same ↦ rw same (
      subst (λ y. suc (times y (without k (distinct ks))) ≤ 1) ((eq_iff k x).0 same)
        (omega (arith, times_gone k (distinct ks))))
  | inr other ↦ rw other (omega (arith, times-without k x (distinct ks), times-distinct x ks))
]

module _ {Row : Type 0} (key : Row → String) where
  abbrev count_key : List Row → String → ℕ
  count_key t k = length (filter (λ r. key r == k) t)

  abbrev pub group_rows : List Row → List (String × ℕ)
  group_rows t = map (λ k. (k, count_key t k)) (distinct (map key t))

  count_pos : (k : String) (t : List Row) → In k (map key t) → 1 ≤ count_key t k
  count_pos k [] h = elim h [ ]
  count_pos k (r ∷ t) (inl e) = rw ((eq_iff (key r) k).1 (sym e)) (omega arith)
  count_pos k (r ∷ t) (inr h) = ground (arith, count_pos k t h)

  pos_count : (k : String) (t : List Row) → 1 ≤ count_key t k → In k (map key t)
  pos_count k [] h = absurd (omega (arith, h))
  pos_count k (r ∷ t) h = elim (Bool-cases (key r == k)) [
    | inl same ↦ inl (sym ((eq_iff (key r) k).0 same))
    | inr other ↦ inr (pos_count k t (rw other at h))
  ]

  In-pairs :
      (f : String → ℕ) (k : String) (n : ℕ) (ks : List String)
      → In {A = String × ℕ} (k, n) (map (λ j. (j, f j)) ks)
      → In k ks × (n ≡ f k)
  In-pairs f k n [] h = elim h [ ]
  In-pairs f k n (j ∷ js) (inl e) =
      let same : k ≡ j = ap (λ (c : String × ℕ). c.0) e in
      (inl same, ap (λ (c : String × ℕ). c.1) e ∙ ap f (sym same))
  In-pairs f k n (j ∷ js) (inr h) = let (mine, at) = In-pairs f k n js h in (inr mine, at)

  pub group_rows_lem :
      (t : List Row) (k : String) (n : ℕ)
      → In (k, n) (group_rows t) ↔ ((n ≡ count_key t k) × (1 ≤ n))
  group_rows_lem t k n = (
    λ h.
        let (mine, at) = In-pairs (count_key t) k n (distinct (map key t)) h in
        (at, omega (arith, at, count_pos k t (In-distinct k (map key t) mine))),
    λ (at, some_left).
        let mine = distinct-In k (map key t) (pos_count k t (omega (arith, at, some_left))) in
        subst (λ m. In (k, m) (group_rows t)) (sym at)
          (In-map (λ j. (j, count_key t j)) k (distinct (map key t)) mine),
  )

  times-pairs :
      (f : String → ℕ) (k : String) (ks : List String)
      → length (filter (λ (c : String × ℕ). c.0 == k) (map (λ j. (j, f j)) ks)) ≡ times k ks
  times-pairs f k [] = refl
  times-pairs f k (j ∷ js) = ground (arith, times-pairs f k js)

  pub group_rows_once :
      (t : List Row) (k : String)
      → length (filter (λ (c : String × ℕ). c.0 == k) (group_rows t)) ≤ 1
  group_rows_once t k =
      rw (times-pairs (count_key t) k (distinct (map key t))) (times-distinct k (map key t))

instance abbrev pub list_groups : GroupBy
list_groups = record {
  group_by = λ key t. group_rows key t;
  group_by_lem = λ key t k n. group_rows_lem key t k n;
  group_by_once = λ key t k. group_rows_once key t k;
}
