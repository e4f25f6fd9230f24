-- ===== src/Envs/ReadBack.antt =====
-- What is saved as the variables of a project is what `findAll` gives afterwards.
use mathlib.Core.Bool.{false≢true}
use code2cloud.Prelude.{
  are_distinct, ℕ, suc, String, ◌≡◌, ◌↔◌, refl, sym, ap, ◌∙◌, subst, Bool, true, not, Option, some,
  List, [], ◌∷◌, ◌++◌, inl, inr, In, map, filter, length, ◌==◌, eq_iff, Option-cases, Bool-cases,
  arith, if◌then◌else◌,
}
use code2cloud.Schema.{EnvironmentVariable, Project}
use code2cloud.Prisma.{Prisma, change_where}
use code2cloud.Prisma.Laws.{In-change_where}
use code2cloud.World.{World, done, require, ◌>>=◌}
use code2cloud.Encryption.{Crypto, encrypt, decrypt}
use code2cloud.Encryption.RoundTrip.{decrypt-encrypt}
use code2cloud.Deployments.{is_project_of, find_project}
use code2cloud.Projects.{decrypted_vars}
use code2cloud.Envs.{SavedVar, is_of_project, saved_rows, replace_vars, keys_of, save_all, find_all}
use code2cloud.Envs.Save.{HasValues, contents, decrypted_one}

module _ {A : Type 0} (p : A → Bool) where
  filter-others : (t s : List A) → filter p (filter (λ v. not (p v)) t ++ s) ≡ filter p s
  filter-others [] s = refl
  filter-others (x ∷ t) s = elim (Bool-cases (p x)) [
    | inl yes_one ↦ rw yes_one (filter-others t s)
    | inr other ↦ rw (other, other) (filter-others t s)
  ]

module _ ⦃crypto : Crypto⦄ where
  -- The row keeps the variable, its value encrypted.
  abbrev IsStored : EnvironmentVariable → SavedVar → Type 0
  IsStored r v = (r.key ≡ v.key) × (r.targets ≡ v.targets) × (decrypt r.value ≡ some v.value)

  abbrev read_of : EnvironmentVariable → String → SavedVar
  read_of r value = record { key = r.key; value = value; targets = r.targets }

  some-inj : {a b : String} → ◌≡◌ {A = Option String} (some a) (some b) → a ≡ b
  some-inj e = cc

  stored_same :
      (r : EnvironmentVariable) (v : SavedVar) (value : String)
      → IsStored r v
      → decrypt r.value ≡ some value
      → v ≡ read_of r value
  stored_same r v value (k, t, d) e =
      let same : v.value ≡ value = some-inj (sym d ∙ e) in
      λ i. record { key = sym k i; value = same i; targets = sym t i }

  -- What is read are the variables that the rows keep.
  abbrev IsRead : List EnvironmentVariable → List EnvironmentVariable → Type 0
  IsRead rows out =
      (v : SavedVar) → In v (contents out) ↔ ((r : EnvironmentVariable) × In r rows × IsStored r v)

  IsRead-cons :
      (r : EnvironmentVariable) (rows out : List EnvironmentVariable) (value : String)
      → decrypt r.value ≡ some value
      → IsRead rows out
      → IsRead (r ∷ rows) (record r { value = value } ∷ out)
  IsRead-cons r rows out value d same v = (down, up)
    where
      down :
          In v (read_of r value ∷ contents out)
          → (x : EnvironmentVariable) × In x (r ∷ rows) × IsStored x v
      down (inl e) = (r, inl refl, subst (IsStored r) (sym e) (refl, refl, d))
      down (inr h) = let (x, among, stored) = (same v).0 h in (x, inr among, stored)

      up :
          (x : EnvironmentVariable) × In x (r ∷ rows) × IsStored x v
          → In v (read_of r value ∷ contents out)
      up (x, inl e, stored) = inl (stored_same r v value (subst (λ y. IsStored y v) e stored) d)
      up (x, inr h, stored) = inr ((same v).1 (x, h, stored))

  decrypted_vars-IsRead :
      (rows : List EnvironmentVariable)
      → ((r : EnvironmentVariable) → In r rows → (v : SavedVar) × IsStored r v)
      → (out : List EnvironmentVariable) × (decrypted_vars rows ≡ some out) × IsRead rows out
  unfolding decrypted_vars
  decrypted_vars-IsRead [] h = ([], refl, λ v. (λ k. elim k [ ], λ k. elim k.1 [ ]))
  decrypted_vars-IsRead (r ∷ rows) h =
      let (out, read, same) = decrypted_vars-IsRead rows (λ x k. h x (inr k)) in
      let (v, stored) = h r (inl refl) in
      let d = stored.2 in
      (
        record r { value = v.value } ∷ out,
        decrypted_one r rows v.value out d read,
        IsRead-cons r rows out v.value d same,
      )

module _ ⦃prisma : Prisma⦄ ⦃crypto : Crypto⦄ (project_id : String) where
  abbrev row_of : List String → ℕ → SavedVar → EnvironmentVariable
  row_of ids n v = record {
    id = prisma.uuid ids;
    key = v.key;
    value = encrypt n v.value;
    targets = v.targets;
    project_id = project_id;
  }

  saved_rows-IsStored :
      (ids : List String) (n : ℕ) (vars : List SavedVar)
      → HasValues vars
      → (r : EnvironmentVariable) → In r (saved_rows ids project_id n vars)
      → (v : SavedVar) × In v vars × IsStored r v
  unfolding saved_rows
  saved_rows-IsStored ids n [] h r k = elim k [ ]
  saved_rows-IsStored ids n (v ∷ vs) (filled, h) r (inl e) = (
    v,
    inl refl,
    subst (λ x. IsStored x v) (sym e) (refl, refl, decrypt-encrypt n v.value filled),
  )
  saved_rows-IsStored ids n (v ∷ vs) (filled, h) r (inr k) =
      let (x, among, stored) = saved_rows-IsStored (prisma.uuid ids ∷ ids) (suc n) vs h r k in
      (x, inr among, stored)

  IsStored-saved_rows :
      (ids : List String) (n : ℕ) (vars : List SavedVar)
      → HasValues vars
      → (v : SavedVar) → In v vars
      → (r : EnvironmentVariable) × In r (saved_rows ids project_id n vars) × IsStored r v
  unfolding saved_rows
  IsStored-saved_rows ids n [] h v k = elim k [ ]
  IsStored-saved_rows ids n (x ∷ vs) (filled, h) v (inl e) = (
    row_of ids n x,
    inl refl,
    subst (IsStored (row_of ids n x)) (sym e) (refl, refl, decrypt-encrypt n x.value filled),
  )
  IsStored-saved_rows ids n (x ∷ vs) (filled, h) v (inr k) =
      let (r, among, stored) = IsStored-saved_rows (prisma.uuid ids ∷ ids) (suc n) vs h v k in
      (r, inr among, stored)

  saved_rows-of_project :
      (ids : List String) (n : ℕ) (vars : List SavedVar)
      → filter (is_of_project project_id) (saved_rows ids project_id n vars)
        ≡ saved_rows ids project_id n vars
  unfolding saved_rows
  saved_rows-of_project ids n [] = refl
  saved_rows-of_project ids n (v ∷ vs) =
      rw ((eq_iff project_id project_id).1 refl)
        (ap (λ t. row_of ids n v ∷ t) (saved_rows-of_project (prisma.uuid ids ∷ ids) (suc n) vs))

  -- Rows in any order that are the saved ones are read as the variables.
  read-saved_rows :
      (ids : List String) (vars : List SavedVar) (rows : List EnvironmentVariable)
      → HasValues vars
      → ((r : EnvironmentVariable) → In r rows ↔ In r (saved_rows ids project_id 0 vars))
      → (out : List EnvironmentVariable) × (decrypted_vars rows ≡ some out)
        × ((v : SavedVar) → In v (contents out) ↔ In v vars)
  read-saved_rows ids vars rows h same =
      let (out, read, is_read) = decrypted_vars-IsRead rows (λ r k.
        let (v, among, stored) = saved_rows-IsStored ids 0 vars h r ((same r).0 k) in
        (v, stored)) in
      (
        out,
        read,
        λ v. (
          λ k.
              let (r, among, stored) = (is_read v).0 k in
              let (x, given, kept) = saved_rows-IsStored ids 0 vars h r ((same r).0 among) in
              subst (λ y. In y vars)
                (stored_same r x v.value kept stored.2
                  ∙ sym (stored_same r v v.value stored stored.2))
                given,
          λ k.
              let (r, among, stored) = IsStored-saved_rows ids 0 vars h v k in
              (is_read v).1 (r, (same r).1 among, stored),
        ),
      )

module _ ⦃prisma : Prisma⦄ ⦃crypto : Crypto⦄ (user_id project_id : String) (vars : List SavedVar)
    (w : World) where
  abbrev kept : List EnvironmentVariable
  kept = filter (λ v. not (is_of_project project_id v)) w.db.env_vars

  abbrev kept_ids : List String
  kept_ids = map (λ (v : EnvironmentVariable). v.id) kept

  abbrev touch : Project → Project
  touch p = record p { config_changed = true; updated_at = w.now }

  abbrev is_this : Project → Bool
  is_this p = p.id == project_id

  abbrev pub saved_world : World
  saved_world = record w {
    db = record w.db {
      env_vars = kept ++ saved_rows kept_ids project_id 0 vars;
      projects = change_where is_this touch w.db.projects;
    };
  }

  save_all-eq-done :
      (p : Project)
      → prisma.find_first (is_project_of user_id project_id) w.db.projects ≡ some p
      → are_distinct (keys_of vars) ≡ true
      → save_all user_id project_id vars w ≡ done (length vars) saved_world
  unfolding save_all replace_vars find_project
  save_all-eq-done p found distinct =
      rw (found, ◌>>=◌, require)
        (rw
          (
            distinct,
            prisma.delete_where_lem (is_of_project project_id) w.db.env_vars,
            prisma.create_lem (saved_rows kept_ids project_id 0 vars) kept,
            prisma.update_lem is_this touch w.db.projects,
          )
          refl)

  still_owned :
      (p : Project)
      → is_project_of user_id project_id p ≡ true
      → is_project_of user_id project_id (if is_this p then touch p else p) ≡ true
  still_owned p owned = ground (arith, owned)

  find_all-eq-done :
      (q : Project) (out : List EnvironmentVariable)
      → prisma.find_first (is_project_of user_id project_id) saved_world.db.projects ≡ some q
      → decrypted_vars (
          prisma.order_text
            (λ (v : EnvironmentVariable). v.key)
            (prisma.find_many (is_of_project project_id) saved_world.db.env_vars))
        ≡ some out
      → find_all user_id project_id saved_world ≡ done out saved_world
  unfolding find_all find_project
  find_all-eq-done q out found read = rw (found, ◌>>=◌, require) (rw read refl)

  -- A row that passes the test is in the table, so the query gives one.
  found_one :
      {Row : Type 0} (test : Row → Bool) (t : List Row) (r : Row)
      → In r t
      → test r ≡ true
      → (x : Row) × (prisma.find_first test t ≡ some x)
  found_one test t r member hit = elim (Option-cases (prisma.find_first test t)) [
    | inl missing ↦ absurd (false≢true (sym (prisma.find_first_none test t r missing member) ∙ hit))
    | inr found ↦ found
  ]

  same_rows :
      (r : EnvironmentVariable)
      → In r (
          prisma.order_text
            (λ (v : EnvironmentVariable). v.key)
            (prisma.find_many (is_of_project project_id) saved_world.db.env_vars))
        ↔ In r (saved_rows kept_ids project_id 0 vars)
  same_rows r =
      subst
        (λ t.
          In r (
            prisma.order_text (λ (v : EnvironmentVariable). v.key)
              (prisma.find_many (is_of_project project_id) saved_world.db.env_vars))
          ↔ In r t)
        (prisma.find_many_lem (is_of_project project_id) saved_world.db.env_vars
          ∙ filter-others (is_of_project project_id) w.db.env_vars
              (saved_rows kept_ids project_id 0 vars)
          ∙ saved_rows-of_project project_id kept_ids 0 vars)
        (prisma.order_text_same (λ (v : EnvironmentVariable). v.key)
          (prisma.find_many (is_of_project project_id) saved_world.db.env_vars) r)

  -- For a project of the user, variables with different keys and values that are not empty are saved,
  -- and listing the project's variables afterwards gives them in clear: each one that was saved with
  -- its key, value and targets, and no other, also none of those that were there before.
  pub find_all-save_all :
      (p : Project)
      → In p w.db.projects
      → is_project_of user_id project_id p ≡ true
      → are_distinct (keys_of vars) ≡ true
      → HasValues vars
      → (w' : World) × (out : List EnvironmentVariable) × (save_all user_id project_id vars w
          ≡ done (length vars) w')
        × (find_all user_id project_id w' ≡ done out w')
        × ((v : SavedVar) → In v (contents out) ↔ In v vars)
  find_all-save_all p member owned distinct filled =
      let (x, found) = found_one (is_project_of user_id project_id) w.db.projects p member owned in
      let (q, again) =
        found_one (is_project_of user_id project_id) saved_world.db.projects
          (if is_this p then touch p else p) (In-change_where is_this touch p w.db.projects member)
          (still_owned p owned) in
      let (out, read, same) = read-saved_rows project_id kept_ids vars _ filled same_rows in
      (saved_world, out, save_all-eq-done x found distinct, find_all-eq-done q out again read, same)
