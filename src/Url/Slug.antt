-- ===== src/Url/Slug.antt =====
-- The sanitized name of a project is a label of a host name.
use Prim.Native.Char.{Char}
use Prim.Native.String.{String, [], ◌∷◌}
use code2cloud.Prelude.{◌≡◌, refl, ap, Bool, true, false, ◌&&◌, inl, inr, arith, Bool-cases}
use code2cloud.Url.{
  lower, is_dash, is_allowed, clean, starts_with_dash, collapse, strip_leading, strip_trailing,
  sanitize,
}

-- Every character is a small letter, a digit or a dash.
abbrev pub AllAllowed : String → Type 0
AllAllowed [] = Unit
AllAllowed (c ∷ s) = (is_allowed c ≡ true) × AllAllowed s

-- No two dashes stand side by side.
abbrev pub NoDouble : String → Type 0
NoDouble [] = Unit
NoDouble (c ∷ s) = ((is_dash c && starts_with_dash s) ≡ false) × NoDouble s

abbrev pub ends_with_dash : String → Bool
ends_with_dash [] = false
ends_with_dash (c ∷ []) = is_dash c
ends_with_dash (c ∷ d ∷ s) = ends_with_dash (d ∷ s)

pub record IsSlug (s : String) : Type 0 where
  pub allowed : AllAllowed s
  pub single : NoDouble s
  pub start : starts_with_dash s ≡ false
  pub finish : ends_with_dash s ≡ false

clean-AllAllowed : (s : String) → AllAllowed (clean s)
unfolding clean
clean-AllAllowed [] = tt
clean-AllAllowed (c ∷ s) = elim (Bool-cases (is_allowed (lower c))) [
  | inl e ↦ rw e (e, clean-AllAllowed s)
  | inr e ↦ rw e (refl, clean-AllAllowed s)
]

collapse-AllAllowed : (s : String) → AllAllowed s → AllAllowed (collapse s)
unfolding collapse
collapse-AllAllowed [] h = tt
collapse-AllAllowed (c ∷ s) (p, h) = ground (arith, collapse-AllAllowed s h)

collapse-NoDouble : (s : String) → NoDouble (collapse s)
unfolding collapse
collapse-NoDouble [] = tt
collapse-NoDouble (c ∷ s) = elim (Bool-cases (is_dash c && starts_with_dash (collapse s))) [
  | inl e ↦ rw e (collapse-NoDouble s)
  | inr e ↦ rw e (e, collapse-NoDouble s)
]

strip_leading_lem :
    (s : String)
    → AllAllowed s
    → NoDouble s
    → AllAllowed (strip_leading s)
      × NoDouble (strip_leading s)
      × (starts_with_dash (strip_leading s) ≡ false)
unfolding strip_leading
strip_leading_lem [] h k = (tt, tt, refl)
strip_leading_lem (c ∷ s) (p, h) (q, k) = elim (Bool-cases (is_dash c)) [
  | inl e ↦ rw e (h, k, ground (arith, q, e))
  | inr e ↦ rw e ((p, h), (q, k), e)
]

no_dash_before : (c : Char) → (is_dash c && false) ≡ false
no_dash_before c = ground arith

strip_trailing_lem :
    (s : String)
    → AllAllowed s
    → NoDouble s
    → AllAllowed (strip_trailing s)
      × NoDouble (strip_trailing s)
      × (ends_with_dash (strip_trailing s) ≡ false)
      × (starts_with_dash s ≡ false → starts_with_dash (strip_trailing s) ≡ false)
unfolding strip_trailing
strip_trailing_lem [] h k = (tt, tt, refl, λ e. e)
strip_trailing_lem (c ∷ []) (p, h) (q, k) = elim (Bool-cases (is_dash c)) [
  | inl e ↦ rw e (tt, tt, refl, λ _. refl)
  | inr e ↦ rw e ((p, tt), (ground (arith, e), tt), e, λ _. e)
]
strip_trailing_lem (c ∷ d ∷ []) (p, (p', h)) (q, (q', k)) = elim (Bool-cases (is_dash d)) [
  | inl e ↦ rw e ((p, tt), (no_dash_before c, tt), ground (arith, q, e), λ x. x)
  | inr e ↦ rw e ((p, (p', tt)), (q, (q', tt)), e, λ x. x)
]
strip_trailing_lem (c ∷ d ∷ x ∷ s) (p, h) (q, k) =
    let (a, b, f, g) = strip_trailing_lem (d ∷ x ∷ s) h k in ((p, a), (q, b), f, λ y. y)

-- Whatever the name, what it is sanitized to has small letters, digits and single dashes only, and
-- neither begins nor ends with a dash.
pub sanitize-IsSlug : (s : String) → IsSlug (sanitize s)
unfolding sanitize
sanitize-IsSlug s =
    let t = collapse (clean s) in
    let (a, b, c) =
      strip_leading_lem t (collapse-AllAllowed (clean s) (clean-AllAllowed s))
        (collapse-NoDouble (clean s)) in
    let (a', b', e', c') = strip_trailing_lem (strip_leading t) a b in
    record { allowed = a'; single = b'; start = c' c; finish = e' }

lower_allowed : (c : Char) → is_allowed c ≡ true → lower c ≡ c
lower_allowed c h = ground arith

clean_of_AllAllowed : (s : String) → AllAllowed s → clean s ≡ s
unfolding clean
clean_of_AllAllowed [] h = refl
clean_of_AllAllowed (c ∷ s) (p, h) = rw (lower_allowed c p, p, clean_of_AllAllowed s h)

collapse_of_NoDouble : (s : String) → NoDouble s → collapse s ≡ s
unfolding collapse
collapse_of_NoDouble [] h = refl
collapse_of_NoDouble (c ∷ s) (q, h) = rw (collapse_of_NoDouble s h, q)

strip_leading_of_start : (s : String) → starts_with_dash s ≡ false → strip_leading s ≡ s
unfolding strip_leading
strip_leading_of_start [] h = refl
strip_leading_of_start (c ∷ s) h = rw h

strip_trailing_of_finish : (s : String) → ends_with_dash s ≡ false → strip_trailing s ≡ s
unfolding strip_trailing
strip_trailing_of_finish [] h = refl
strip_trailing_of_finish (c ∷ []) h = rw h
strip_trailing_of_finish (c ∷ d ∷ s) h = ap (λ t. c ∷ t) (strip_trailing_of_finish (d ∷ s) h)

sanitize_of_IsSlug : (s : String) → IsSlug s → sanitize s ≡ s
unfolding sanitize
sanitize_of_IsSlug s h = rw (
  clean_of_AllAllowed s h.allowed,
  collapse_of_NoDouble s h.single,
  strip_leading_of_start s h.start,
  strip_trailing_of_finish s h.finish,
)

-- Sanitizing a second time changes nothing.
pub sanitize-sanitize : (s : String) → sanitize (sanitize s) ≡ sanitize s
sanitize-sanitize s = sanitize_of_IsSlug (sanitize s) (sanitize-IsSlug s)
