-- ===== src/Auth/Refresh.antt =====
-- Who gets new tokens.
use mathlib.Core.Bool.{false≢true}
use code2cloud.Prelude.{
  String, Bool, ◌≡◌, refl, sym, ap, ◌∙◌, true, false, some, In, truthy, ◌==◌, eq_iff, if◌then◌else◌,
}
use code2cloud.Prisma.Laws.{change_where-In}
use code2cloud.Schema.{User}
use code2cloud.Prisma.{Prisma, change_where}
use code2cloud.World.{World, Outcome, done, fail, unauthorized, forbidden, guard, ◌>>◌, Act}
use code2cloud.World.Laws.{guard_rule, require_rule}
use code2cloud.Auth.{
  AuthApi, Tokens, has_user_id, get_tokens, matches, update_refresh_token_hash, issue, sign_in,
  refresh_tokens,
}

module _ ⦃prisma : Prisma⦄ ⦃api : AuthApi⦄ where
  -- The world that remembers the refresh token of a user.
  abbrev pub remembering : World → User → World
  remembering w u = record w {
    db = record w.db {
      users =
          change_where (has_user_id u.id)
            (λ v. record v { hashed_refresh_token = some (api.hash (get_tokens u).refresh_token) })
            w.db.users;
    };
  }

  -- The rows of the user remember the new refresh token.
  pub remembering-remembered :
      (w : World) (u v : User)
      → In v (remembering w u).db.users
      → v.id ≡ u.id
      → v.hashed_refresh_token ≡ some (api.hash (get_tokens u).refresh_token)
  remembering-remembered w u v h e =
      let (x, old, same) = change_where-In (has_user_id u.id) _ v w.db.users h in
      by_test x same (has_user_id u.id x) refl
    where
      change : User → User
      change x = record x { hashed_refresh_token = some (api.hash (get_tokens u).refresh_token) }

      by_test :
          (x : User)
          → v ≡ (if has_user_id u.id x then change x else x)
          → (c : Bool) → has_user_id u.id x ≡ c
          → v.hashed_refresh_token ≡ some (api.hash (get_tokens u).refresh_token)
      by_test x same true hit =
          ap (λ (y : User). y.hashed_refresh_token) (same ∙ pick (has_user_id u.id x) hit)
        where
          pick : (c : Bool) → c ≡ true → (if c then change x else x) ≡ change x
          pick c q = rw q refl
      by_test x same false miss = absurd (
          false≢true (
            sym miss
            ∙ (eq_iff x.id u.id).1
                (ap (λ (y : User). y.id) (sym (same ∙ keep (has_user_id u.id x) miss)) ∙ e)))
        where
          keep : (c : Bool) → c ≡ false → (if c then change x else x) ≡ x
          keep c q = rw q refl

  -- New tokens are issued to a user for whom the condition holds; otherwise nothing is written.
  abbrev pub IssuedIf : (User → Type 0) → World → Outcome Tokens → Type 0
  IssuedIf Allowed w (done tokens w') =
      (u : User) × In u w.db.users × Allowed u × (tokens ≡ get_tokens u) × (w' ≡ remembering w u)
  IssuedIf Allowed w (fail e w') = w' ≡ w

  pub issue-eq-done : (u : User) (w : World) → issue u w ≡ done (get_tokens u) (remembering w u)
  unfolding issue update_refresh_token_hash
  issue-eq-done u w = rw (prisma.update_lem (has_user_id u.id) _ w.db.users) refl

  issued :
      (Allowed : User → Type 0) (w : World) (u : User)
      → In u w.db.users
      → Allowed u
      → IssuedIf Allowed w (issue u w)
  issued Allowed w u member allowed = rw (issue-eq-done u w) (u, member, allowed, refl, refl)

  -- Tokens are refreshed only for the user of the id, and only if a hash is remembered for the user
  -- and the comparison of bcrypt accepts the given token against it; then the user gets new tokens
  -- and the hash of the new refresh token is remembered. Otherwise nothing is written.
  pub refresh_tokens_lem :
      (user_id token : String) (w : World)
      → IssuedIf
          (λ u.
            (u.id ≡ user_id)
            × (truthy u.hashed_refresh_token ≡ true)
            × (matches token u.hashed_refresh_token ≡ true))
          w
          (refresh_tokens user_id token w)
  unfolding refresh_tokens
  refresh_tokens_lem user_id token w =
      require_rule (IssuedIf Allowed w) (forbidden "Access Denied") w
        (prisma.find_first (has_user_id user_id) w.db.users) checked (λ _. refl)
        (λ u found.
          let (named, member) = prisma.find_first_some _ _ _ found in
          guard_rule (IssuedIf Allowed w) (forbidden "Access Denied") w
            (truthy u.hashed_refresh_token) (compared u) (λ _. refl)
            (λ has.
              guard_rule (IssuedIf Allowed w) (forbidden "Access Denied") w
                (matches token u.hashed_refresh_token) (issue u) (λ _. refl)
                (λ fits. issued Allowed w u member ((eq_iff _ _).0 named, has, fits))))
    where
      Allowed : User → Type 0
      Allowed u =
          (u.id ≡ user_id)
          × (truthy u.hashed_refresh_token ≡ true)
          × (matches token u.hashed_refresh_token ≡ true)

      compared : User → Act Tokens
      compared u =
          guard (matches token u.hashed_refresh_token) (forbidden "Access Denied") >> issue u

      checked : User → Act Tokens
      checked u = guard (truthy u.hashed_refresh_token) (forbidden "Access Denied") >> compared u

  -- A user signs in only with an address that is the user's, and the password.
  pub sign_in_lem :
      (email password : String) (w : World)
      → IssuedIf
          (λ u. (u.email ≡ email) × (matches password u.password ≡ true))
          w
          (sign_in email password w)
  unfolding sign_in
  sign_in_lem email password w =
      require_rule (IssuedIf Allowed w) (unauthorized "Invalid credentials") w
        (prisma.find_first (λ (u : User). u.email == email) w.db.users) checked (λ _. refl)
        (λ u found.
          let (named, member) = prisma.find_first_some _ _ _ found in
          guard_rule (IssuedIf Allowed w) (unauthorized "Invalid credentials") w
            (matches password u.password) (issue u) (λ _. refl)
            (λ fits. issued Allowed w u member ((eq_iff _ _).0 named, fits)))
    where
      Allowed : User → Type 0
      Allowed u = (u.email ≡ email) × (matches password u.password ≡ true)

      checked : User → Act Tokens
      checked u =
          guard (matches password u.password) (unauthorized "Invalid credentials") >> issue u
