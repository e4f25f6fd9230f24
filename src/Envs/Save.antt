-- ===== src/Envs/Save.antt =====
-- What a user saves as the variables of a project is what is read back.
use code2cloud.Prelude.{
  are_distinct, ℕ, suc, String, ◌≡◌, ◌≢◌, refl, ap, true, not, some, List, [], ◌∷◌, ◌++◌, inl, inr,
  In, map, filter, length, ◌==◌, Option-cases, Bool-cases,
}
use code2cloud.Schema.{EnvironmentVariable, Project}
use code2cloud.Prisma.{Prisma, change_where}
use code2cloud.World.{World, Outcome, done, fail, require, ◌>>=◌}
use code2cloud.Encryption.{Crypto, decrypt}
use code2cloud.Encryption.RoundTrip.{decrypt-encrypt}
use code2cloud.Deployments.{is_project_of, find_project}
use code2cloud.Projects.{decrypted_vars}
use code2cloud.Envs.{SavedVar, is_of_project, saved_rows, replace_vars, keys_of, save_all}

abbrev pub HasValues : List SavedVar → Type 0
HasValues [] = Unit
HasValues (v ∷ vs) = (v.value ≢ "") × HasValues vs

-- The key, the value and the targets of rows.
abbrev pub contents : List EnvironmentVariable → List SavedVar
contents [] = []
contents (r ∷ rs) = record { key = r.key; value = r.value; targets = r.targets } ∷ contents rs

module _ ⦃crypto : Crypto⦄ where
  pub decrypted_one :
      (r : EnvironmentVariable) (rs : List EnvironmentVariable) (value : String)
      (rows : List EnvironmentVariable)
      → decrypt r.value ≡ some value
      → decrypted_vars rs ≡ some rows
      → decrypted_vars (r ∷ rs) ≡ some (record r { value = value } ∷ rows)
  unfolding decrypted_vars
  decrypted_one r rs value rows plain read = rw (decrypted_vars, plain) (rw read refl)

module _ ⦃prisma : Prisma⦄ ⦃crypto : Crypto⦄ (project_id : String) where
  -- The rows of variables with values that are not empty decrypt, to the variables as given.
  pub decrypted_vars-saved_rows :
      (ids : List String) (n : ℕ) (vars : List SavedVar)
      → HasValues vars
      → (rows : List EnvironmentVariable) × (decrypted_vars (saved_rows ids project_id n vars)
          ≡ some rows)
        × (contents rows ≡ vars)
  unfolding saved_rows decrypted_vars
  decrypted_vars-saved_rows ids n [] h = ([], refl, refl)
  decrypted_vars-saved_rows ids n (v ∷ vs) (filled, h) =
      let (rows, read, same) = decrypted_vars-saved_rows (prisma.uuid ids ∷ ids) (suc n) vs h in
      (
        record {
          id = prisma.uuid ids;
          key = v.key;
          value = v.value;
          targets = v.targets;
          project_id = project_id;
        }
            ∷ rows,
        decrypted_one _ _ v.value rows (decrypt-encrypt n v.value filled) read,
        ap (λ t. v ∷ t) same,
      )

-- What saving may answer, and the world that it leaves.
abbrev pub SaveOutcome :
    ⦃prisma : Prisma⦄
    → ⦃crypto : Crypto⦄ → String
    → String
    → List SavedVar
    → World
    → Outcome ℕ
    → Type 0
SaveOutcome user_id project_id vars w (done n w') =
    let kept = filter (λ v. not (is_of_project project_id v)) w.db.env_vars in
    (p : Project) × In p w.db.projects
    × (is_project_of user_id project_id p ≡ true)
    × (are_distinct (keys_of vars) ≡ true)
    × (n ≡ length vars)
    × (w' ≡ record w {
      db = record w.db {
        env_vars =
            kept ++ saved_rows (map (λ (v : EnvironmentVariable). v.id) kept) project_id 0 vars;
        projects =
            change_where (λ (p : Project). p.id == project_id)
              (λ p. record p { config_changed = true; updated_at = w.now }) w.db.projects;
      };
    })
SaveOutcome user_id project_id vars w (fail e w') = w' ≡ w

module _ ⦃prisma : Prisma⦄ ⦃crypto : Crypto⦄ (user_id project_id : String) (vars : List SavedVar)
    (w : World) where
  abbrev kept : List EnvironmentVariable
  kept = filter (λ v. not (is_of_project project_id v)) w.db.env_vars

  replaced :
      (p : Project)
      → In p w.db.projects
      → is_project_of user_id project_id p ≡ true
      → find_project user_id project_id w ≡ done p w
      → SaveOutcome user_id project_id vars w (save_all user_id project_id vars w)
  unfolding save_all replace_vars
  replaced p member owned found = elim (Bool-cases (are_distinct (keys_of vars))) [
    | inr twice ↦ rw (found, ◌>>=◌) (rw (twice, prisma.rollback_lem w.db) refl)
    | inl distinct ↦
        rw (found, ◌>>=◌)
          (rw
            (
              distinct,
              prisma.delete_where_lem (is_of_project project_id) w.db.env_vars,
              prisma.create_lem
                  (saved_rows (map (λ (v : EnvironmentVariable). v.id) kept) project_id 0 vars)
                  kept,
              prisma.update_lem (λ (p : Project). p.id == project_id)
                  (λ p. record p { config_changed = true; updated_at = w.now }) w.db.projects,
            )
            (p, member, owned, distinct, refl, refl))
  ]

  -- Saving replaces the variables of a project of the user by the given ones, whose keys differ,
  -- encrypted, marks the project as changed and writes nothing else; a key that comes twice, or any
  -- other project, is refused, and then nothing is written.
  pub save_all_lem : SaveOutcome user_id project_id vars w (save_all user_id project_id vars w)
  unfolding save_all find_project
  save_all_lem =
      elim (Option-cases (prisma.find_first (is_project_of user_id project_id) w.db.projects)) [
        | inl missing ↦ rw (missing, ◌>>=◌, require) refl
        | inr (p, found) ↦
            let (owned, member) = prisma.find_first_some _ _ _ found in
            replaced p member owned (rw (found, require) refl)
      ]
