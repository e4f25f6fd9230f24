-- ===== src/Guards/Key.antt =====
-- Only the configured key is a key.
use mathlib.Core.Bool.{false≢true}
use code2cloud.Prelude.{
  String, ◌≡◌, refl, sym, ap, ◌∙◌, Bool, true, false, not, Option, none, some, ◌⊎◌, inl, inr,
  Bool-cases, ◌==◌, eq_iff, not-true, and_left, and_right,
}
use code2cloud.Guards.{
  Incoming, Verdict, missing_key, invalid_key, answered, is_valid_key, check_key, worker_key,
  jwt_key, worker_guard, jwt_guard,
}

-- The request has the key that is configured, which is not empty.
abbrev pub HasKey : Option String → Incoming → Type 0
HasKey valid req =
    (key : String) × (req.worker_api_key ≡ some key) × (valid ≡ some key) × ((key == "") ≡ false)

abbrev is_let_in : Verdict → Bool
is_let_in missing_key = false
is_let_in invalid_key = false
is_let_in (answered b) = b

valid_key :
    (valid : Option String) (key : String)
    → is_valid_key valid key ≡ true
    → (valid ≡ some key) × ((key == "") ≡ false)
valid_key none key h = absurd (false≢true h)
valid_key (some v) key h =
    let same : key ≡ v = (eq_iff key v).0 (and_right (not (v == "")) (key == v) h) in
    (
      ap some (sym same),
      ap (λ k. k == "") same ∙ not-true (v == "") (and_left (not (v == "")) (key == v) h),
    )

checked_key :
    (valid : Option String) (key : String)
    → check_key valid key ≡ answered true
    → (valid ≡ some key) × ((key == "") ≡ false)
checked_key valid key h = elim (Bool-cases (is_valid_key valid key)) [
  | inl fine ↦ valid_key valid key fine
  | inr wrong ↦ absurd (false≢true (ap is_let_in (rw wrong at h)))
]

module _ (valid : Option String) where
  from_worker :
      (o : Option String)
      → worker_key valid o ≡ answered true
      → (key : String) × (o ≡ some key) × (valid ≡ some key) × ((key == "") ≡ false)
  from_worker none h = absurd (false≢true (ap is_let_in h))
  from_worker (some key) h = elim (Bool-cases (key == "")) [
    | inl empty ↦ absurd (false≢true (ap is_let_in (rw empty at h)))
    | inr given ↦
        let (same, filled) = checked_key valid key (rw given at h) in (key, refl, same, filled)
  ]

  from_jwt :
      (o : Option String) (jwt : Bool)
      → jwt_key valid o jwt ≡ answered true
      → ((key : String) × (o ≡ some key) × (valid ≡ some key) × ((key == "") ≡ false))
        ⊎ (jwt ≡ true)
  from_jwt none jwt h = inr (ap is_let_in h)
  from_jwt (some key) jwt h = elim (Bool-cases (key == "")) [
    | inl empty ↦ inr (ap is_let_in (rw empty at h))
    | inr given ↦
        let (same, filled) = checked_key valid key (rw given at h) in inl (key, refl, same, filled)
  ]

-- The worker's guard lets a request in only if it has the configured key; the guard of users lets
-- one in only if it has this key, or has no key and its token is accepted.
pub guards_lem :
    (valid : Option String) (req : Incoming)
    → (worker_guard valid req ≡ answered true → HasKey valid req)
      × (jwt_guard valid req ≡ answered true → HasKey valid req ⊎ (req.jwt_allows ≡ true))
unfolding worker_guard jwt_guard
guards_lem valid req =
    (from_worker valid req.worker_api_key, from_jwt valid req.worker_api_key req.jwt_allows)
