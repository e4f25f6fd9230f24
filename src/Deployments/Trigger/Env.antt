-- ===== src/Deployments/Trigger/Env.antt =====
-- The variables that a deployment asked for by the user is built with.
use code2cloud.Prelude.{
  String, ◌≡◌, refl, ◌∙◌, ap, Bool, true, false, Option, none, some, List, [], ◌∷◌, ◌⊎◌, inl, inr,
  any, arith, Bool-cases, In, sym, ◌==◌, Dict, put, lookup, eq_iff, if◌then◌else◌,
}
use code2cloud.Schema.{EnvironmentVariable, Project, Deployment, is_production}
use code2cloud.Encryption.{Crypto, decrypt}
use code2cloud.Prisma.{Prisma}
use code2cloud.Prisma.Laws.{In-filter}
use code2cloud.World.{World}
use code2cloud.Github.{GithubApi, CommitData}
use code2cloud.Deployments.{with_python}
use code2cloud.Deployments.Trigger.{add_decrypted, production_env, job_of}

module _ ⦃crypto : Crypto⦄ (key value : String) where
  -- A variable that gives the key its value.
  abbrev pub Gives : EnvironmentVariable → Type 0
  Gives v = (v.key ≡ key) × (any is_production v.targets ≡ true) × (decrypt v.value ≡ some value)

  abbrev pub IsGiven : List EnvironmentVariable → Type 0
  IsGiven [] = ⊥
  IsGiven (v ∷ vs) = Gives v ⊎ IsGiven vs

  lookup-put :
      (k x : String) (acc : Dict String)
      → lookup key (put k x acc) ≡ some value
      → ((k ≡ key) × (x ≡ value)) ⊎ (lookup key acc ≡ some value)
  lookup-put k x [] e = ground (arith, eq_iff k key)
  lookup-put k x ((j, y) ∷ acc) e =
      ground (arith, eq_iff k key, eq_iff j key, eq_iff j k, lookup-put k x acc)

  module _ (v : EnvironmentVariable) (acc : Dict String) where
    added :
        (o : Option String)
        → decrypt v.value ≡ o
        → any is_production v.targets ≡ true
        → lookup key (add_decrypted v.key o acc) ≡ some value
        → Gives v ⊎ (lookup key acc ≡ some value)
    added none plain production e = inr e
    added (some x) plain production e = elim (lookup-put v.key x acc e) [
      | inl (same, gives) ↦ inl (same, production, plain ∙ ap some gives)
      | inr before ↦ inr before
    ]

    Gives-first :
        (b : Bool)
        → any is_production v.targets ≡ b
        → lookup key (if b then add_decrypted v.key (decrypt v.value) acc else acc) ≡ some value
        → Gives v ⊎ (lookup key acc ≡ some value)
    Gives-first true production e = added (decrypt v.value) refl production e
    Gives-first false production e = inr e

  from_acc :
      (vs : List EnvironmentVariable) (acc : Dict String)
      → lookup key (production_env acc vs) ≡ some value
      → IsGiven vs ⊎ (lookup key acc ≡ some value)
  unfolding production_env
  from_acc [] acc e = inr e
  from_acc (v ∷ vs) acc e = elim (from_acc vs _ e) [
    | inl later ↦ inl (inr later)
    | inr here ↦ elim (Gives-first v acc (any is_production v.targets) refl here) [
      | inl given ↦ inl (inl given)
      | inr before ↦ inr before
    ]
  ]

  production_env_sound :
      (vs : List EnvironmentVariable) → lookup key (production_env [] vs) ≡ some value → IsGiven vs
  production_env_sound vs e = elim (from_acc vs [] e) [
    | inl given ↦ given
    | inr impossible ↦ absurd (cc)
  ]

  IsGiven-In :
      (vs : List EnvironmentVariable) → IsGiven vs → (v : EnvironmentVariable) × In v vs × Gives v
  IsGiven-In [] h = elim h [ ]
  IsGiven-In (v ∷ vs) (inl g) = (v, inl refl, g)
  IsGiven-In (v ∷ vs) (inr h) = let (x, k, g) = IsGiven-In vs h in (x, inr k, g)

  -- The version of Python that the project names.
  abbrev pub IsVersion : Option String → Type 0
  IsVersion version = (key ≡ "RAILPACK_PYTHON_VERSION") × (version ≡ some value)

  lookup-with_python :
      (version : Option String) (env : Dict String)
      → lookup key (with_python version env) ≡ some value
      → IsVersion version ⊎ (lookup key env ≡ some value)
  lookup-with_python none env e = inr e
  lookup-with_python (some v) env e = elim (Bool-cases (v == "")) [
    | inl empty ↦ inr (rw empty at e)
    | inr given ↦ elim (lookup-put "RAILPACK_PYTHON_VERSION" v env (rw given at e)) [
      | inl (same, gives) ↦ inl (sym same, ap some gives)
      | inr before ↦ inr before
    ]
  ]

  -- Each pair of a name and a value in the environment of the build job of a deployment that a user
  -- asks for comes from a variable of the project with that name, that is meant for production and
  -- whose text decrypts to that value, or is the version of Python that the project names.
  pub job_of_sound :
      ⦃prisma : Prisma⦄ ⦃github : GithubApi⦄ (w : World) (p : Project) (installation_id : String)
      (commit : CommitData) (d : Deployment)
      → lookup key (job_of w p installation_id commit d).env_vars ≡ some value
      → ((v : EnvironmentVariable) × In v w.db.env_vars × (v.project_id ≡ p.id) × Gives v)
        ⊎ IsVersion p.python_version
  unfolding job_of
  job_of_sound ⦃prisma⦄ ⦃github⦄ w p installation_id commit d e =
      elim (lookup-with_python p.python_version (production_env [] vars) e) [
        | inl version ↦ inr version
        | inr found ↦
            let (v, member, gives) = IsGiven-In vars (production_env_sound vars found) in
            let (own, stored) =
              In-filter (λ (v : EnvironmentVariable). v.project_id == p.id) v w.db.env_vars
                (rw (prisma.find_many_lem _ w.db.env_vars) at member) in
            inl (v, stored, (eq_iff v.project_id p.id).0 own, gives)
      ]
    where
      vars : List EnvironmentVariable
      vars = prisma.find_many (λ (v : EnvironmentVariable). v.project_id == p.id) w.db.env_vars
