-- ===== src/GithubSignIn/Google.antt =====
-- Where the callback of Google lands: apps/api/src/auth/auth.controller.ts, `googleAuthRedirect`.
use code2cloud.Prelude.{◌≡◌, refl, ◌∙◌, false, Option, none, some, List, ◌⊎◌, inl, inr, In, eq_iff}
use code2cloud.Schema.{User}
use code2cloud.Prisma.{Prisma}
use code2cloud.World.{World, done, Act, pure}
use code2cloud.World.Laws.{bind-done}
use code2cloud.Auth.{AuthApi, get_tokens, issue}
use code2cloud.Auth.Accounts.{
  OAuthUser, has_email, user_ids, user_row, create_user, oauth_user, validate_oauth_login,
}
use code2cloud.Auth.Refresh.{remembering, issue-eq-done, remembering-remembered}
use code2cloud.GithubSignIn.Exchange.{Config}
use code2cloud.GithubSignIn.Redirects.{tokens_page, google_auth_redirect}

module _ ⦃prisma : Prisma⦄ ⦃api : AuthApi⦄ (config : Config) (profile : OAuthUser) (w : World) where
  abbrev with_users : List User → World
  with_users users = record w { db = record w.db { users = users } }

  -- The user who has the address of the profile, or a new one if nobody has it.
  abbrev pub IsTheirs : User → Type 0
  IsTheirs u =
      (u.email ≡ profile.email)
      × (((x : User) × In x w.db.users × (x.email ≡ profile.email) × (u.id ≡ x.id))
          ⊎ (((x : User) → In x w.db.users → has_email profile.email x ≡ false)
              × (¬ In u.id (user_ids w.db))))

  oauth_user_lem :
      (o : Option User)
      → prisma.find_first (has_email profile.email) w.db.users ≡ o
      → (u : User) × (users : List User) × (oauth_user profile o w ≡ done u (with_users users))
        × IsTheirs u
  unfolding create_user
  oauth_user_lem none missing = (
    user_row (prisma.uuid (user_ids w.db)) profile.email none (some profile.name)
        (some profile.picture) (some profile.provider),
    _,
    refl,
    (refl, inr (λ x h. prisma.find_first_none _ _ x missing h, prisma.uuid_fresh (user_ids w.db))),
  )
  oauth_user_lem (some u) found =
      let (hit, member) = prisma.find_first_some _ _ u found in
      let same : u.email ≡ profile.email = (eq_iff u.email profile.email).0 hit in
      (
        record u { avatar = some profile.picture; provider = some profile.provider },
        _,
        refl,
        (same, inl (u, member, same, refl)),
      )

  -- The callback of Google always signs in: the user who has the address of the profile, or a new one
  -- if nobody has it. The browser is sent to the page that takes the user's tokens, and the user's
  -- rows remember the new refresh token.
  pub google_auth_redirect_lem :
      (u : User) × (w' : World) × (google_auth_redirect config profile w
        ≡ done (tokens_page config (get_tokens u)) w')
      × IsTheirs u
      × ((v : User)
          → In v w'.db.users
          → v.id ≡ u.id
          → v.hashed_refresh_token ≡ some (api.hash (get_tokens u).refresh_token))
  unfolding google_auth_redirect validate_oauth_login
  google_auth_redirect_lem =
      let (u, users, made, theirs) =
        oauth_user_lem (prisma.find_first (has_email profile.email) w.db.users) refl in
      (
        u,
        remembering (with_users users) u,
        run u users made,
        theirs,
        λ v h e. remembering-remembered (with_users users) u v h e,
      )
    where
      signing : Act User
      signing = oauth_user profile (prisma.find_first (has_email profile.email) w.db.users)

      run :
          (u : User) (users : List User)
          → signing w ≡ done u (with_users users)
          → google_auth_redirect config profile w
            ≡ done (tokens_page config (get_tokens u)) (remembering (with_users users) u)
      run u users made =
          bind-done (validate_oauth_login profile) (λ tokens. pure (tokens_page config tokens)) w
            (get_tokens u) (remembering (with_users users) u)
            (bind-done signing issue w u (with_users users) made
              ∙ issue-eq-done u (with_users users))
