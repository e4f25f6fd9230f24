-- ===== src/Internal/Dates.antt =====
-- apps/api/src/internal/internal.service.ts: what the tests on thresholds and owners decide.
use mathlib.Core.Bool.{false≢true}
use code2cloud.Prelude.{
  ℕ, suc, String, ◌+◌, ◌*◌, ◌≤◌, ◌<◌, ◌≡◌, refl, sym, Bool, true, ◌&&◌, ◌==◌, List, [], ◌∷◌, ◌↔◌,
  inl, inr, In, any, arith, eq_iff, Bool-cases, and_left, and_right,
}
use code2cloud.Prelude.Int.{ℤ, pos, negsuc}
use code2cloud.Schema.{Project}
use code2cloud.World.{Database}
use code2cloud.Deployments.{project_of_user}
use code2cloud.Internal.{is_before, is_valid_date, is_zero}

-- The time is more than an amount of units before now; a negative amount lies ahead.
abbrev pub IsOlder : ℕ → ℕ → ℤ → ℕ → Type 0
IsOlder time now (pos n) unit = time + n * unit < now
IsOlder time now (negsuc n) unit = time < now + suc n * unit

-- The time that an amount of units lies before now is a date.
abbrev pub HasDate : ℕ → ℤ → ℕ → Type 0
HasDate now (pos n) unit = (n * unit ≤ now + 8640000000000000) × (now ≤ n * unit + 8640000000000000)
HasDate now (negsuc n) unit = now + suc n * unit ≤ 8640000000000000

abbrev pub IsOwner : Database → String → String → Type 0
IsOwner db user_id project_id =
    (p : Project) × In p db.projects × (p.id ≡ project_id) × (p.user_id ≡ user_id)

pub is_before_iff :
    (time now : ℕ) (amount : ℤ) (unit : ℕ)
    → (is_before time now amount unit ≡ true) ↔ IsOlder time now amount unit
is_before_iff time now (pos n) unit = ground arith
is_before_iff time now (negsuc n) unit = ground arith

pub is_valid_date_iff :
    (now : ℕ) (amount : ℤ) (unit : ℕ)
    → (is_valid_date now amount unit ≡ true) ↔ HasDate now amount unit
is_valid_date_iff now (pos n) unit = ground arith
is_valid_date_iff now (negsuc n) unit = ground arith

pub is_zero_iff : (amount : ℤ) → (is_zero amount ≡ true) ↔ (amount ≡ pos 0)
is_zero_iff (pos n) = ground arith
is_zero_iff (negsuc n) = (λ e. cc e, λ e. cc e)

module _ {A : Type 0} (p : A → Bool) where
  pub any-In : (xs : List A) → any p xs ≡ true → (x : A) × In x xs × (p x ≡ true)
  any-In [] e = absurd (false≢true e)
  any-In (x ∷ xs) e = elim (Bool-cases (p x)) [
    | inl hit ↦ (x, inl refl, hit)
    | inr miss ↦ let (y, k, h) = any-In xs (ground (arith, e, miss)) in (y, inr k, h)
  ]

  pub In-any : (x : A) (xs : List A) → In x xs → p x ≡ true → any p xs ≡ true
  In-any x [] k h = elim k [ ]
  In-any x (y ∷ xs) (inl e) h = rw (sym e, h) refl
  In-any x (y ∷ xs) (inr k) h = ground (arith, In-any x xs k h)

pub project_of_user_iff :
    (db : Database) (user_id project_id : String)
    → (project_of_user db user_id project_id ≡ true) ↔ IsOwner db user_id project_id
project_of_user_iff db user_id project_id = (
  λ e.
      let (p, k, h) = any-In (is_theirs) db.projects e in
      (
        p,
        k,
        (eq_iff p.id project_id).0 (and_left _ _ h),
        (eq_iff p.user_id user_id).0 (and_right _ _ h),
      ),
  λ (p, k, i, u).
      In-any is_theirs p db.projects k
        (rw ((eq_iff p.id project_id).1 i, (eq_iff p.user_id user_id).1 u) refl),
)
  where
    is_theirs : Project → Bool
    is_theirs p = (p.id == project_id) && (p.user_id == user_id)
