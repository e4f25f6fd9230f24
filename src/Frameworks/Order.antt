-- ===== src/Frameworks/Order.antt =====
-- Which entry of the table of frameworks decides.
use mathlib.Core.Bool.{false≢true}
use code2cloud.Prelude.{
  String, ◌≡◌, refl, sym, ap, ◌∙◌, Bool, true, false, none, some, List, [], ◌∷◌, ◌++◌, ◌⊎◌, inl,
  inr, All, find?, Bool-cases, Option-cases, if◌then◌else◌,
}
use code2cloud.Frameworks.{FrameworkEntry, node_frameworks, entry_or, detect_node}

module _ (has : String → Bool) where
  abbrev pub IsMissing : FrameworkEntry → Type 0
  IsMissing e = has e.dependency ≡ false

  -- The entry is the first one of the table that the package depends on.
  abbrev pub IsFirst : List FrameworkEntry → FrameworkEntry → Type 0
  IsFirst table e =
      (before : List FrameworkEntry) × (after : List FrameworkEntry) × (table ≡ before ++ e ∷ after)
      × All IsMissing before
      × (has e.dependency ≡ true)

  find?-IsFirst :
      (table : List FrameworkEntry) (e : FrameworkEntry)
      → find? (λ x. has x.dependency) table ≡ some e
      → IsFirst table e
  find?-IsFirst [] e h = absurd (cc)
  find?-IsFirst (x ∷ xs) e h = elim (Bool-cases (has x.dependency)) [
    | inl here ↦
        let same = ap (λ o. elim o [ none ↦ x | some y ↦ y ]) (rw here at h) in
        (
          [],
          xs,
          ap (λ y. y ∷ xs) same,
          tt,
          ap (λ (y : FrameworkEntry). has y.dependency) (sym same) ∙ here,
        )
    | inr missing ↦
        let (before, after, same, none_before, found) = find?-IsFirst xs e (rw missing at h) in
        (x ∷ before, after, ap (λ t. x ∷ t) same, (missing, none_before), found)
  ]

  find?-All :
      (table : List FrameworkEntry)
      → find? (λ x. has x.dependency) table ≡ none
      → All IsMissing table
  find?-All [] h = tt
  find?-All (x ∷ xs) h = elim (Bool-cases (has x.dependency)) [
    | inl here ↦
        absurd (false≢true (ap (λ o. elim o [ none ↦ true | some _ ↦ false ]) (rw here at h)))
    | inr missing ↦ (missing, find?-All xs (rw missing at h))
  ]

  -- A package gets the framework of the first entry of the table that it depends on; if it depends
  -- on none, the server framework if it depends on koa, and plain node otherwise.
  pub detect_node_lem :
      ((e : FrameworkEntry) × IsFirst node_frameworks e
        × (detect_node has
            ≡ record { framework = e.framework; output_directory = e.output_directory }))
      ⊎ (All IsMissing node_frameworks
          × (detect_node has ≡ (
              if has "koa"
              then record { framework = "node-server"; output_directory = "." }
              else record { framework = "node"; output_directory = "." })))
  unfolding detect_node
  detect_node_lem = elim (Option-cases (find? (λ e. has e.dependency) node_frameworks)) [
    | inr (e, found) ↦ inl (e, find?-IsFirst node_frameworks e found, ap (entry_or has) found)
    | inl missing ↦
        let all = find?-All node_frameworks missing in
        inr (all, ap (entry_or has) missing ∙ rw (all.1.1.1.0, all.1.1.1.1.0) refl)
  ]
