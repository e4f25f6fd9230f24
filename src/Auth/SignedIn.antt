-- ===== src/Auth/SignedIn.antt =====
-- What a user that is signed in by GitHub has afterwards.
use code2cloud.Prelude.{String, ◌≡◌, refl, true, false, Option, some, List, any, In}
use code2cloud.Schema.{User, GitAccount}
use code2cloud.Prisma.{Prisma}
use code2cloud.World.{World, done, fail, thrown}
use code2cloud.Auth.{AuthApi, Tokens, has_user_id, get_tokens}
use code2cloud.Auth.Accounts.{CompleteGithubPayload, is_link, upserted, upsert_account}
use code2cloud.Auth.Refresh.{remembering, remembering-remembered}
use code2cloud.Auth.Link.{IsLinked, upserted-IsLinked}

module _ ⦃prisma : Prisma⦄ ⦃api : AuthApi⦄ (payload : CompleteGithubPayload)
    (installation : Option String) where
  abbrev pub linked_world : World → String → World
  linked_world w user_id = record w {
    db = record w.db {
      git_accounts =
          upserted payload installation user_id w.db.git_accounts
            (prisma.find_first (is_link payload.github_id) w.db.git_accounts);
    };
  }

  pub upsert_account-eq-done :
      (user_id : String) (w : World)
      → any (has_user_id user_id) w.db.users ≡ true
      → upsert_account payload installation user_id w ≡ done tt (linked_world w user_id)
  unfolding upsert_account
  upsert_account-eq-done user_id w known = rw known refl

  pub upsert_account-eq-fail :
      (user_id : String) (w : World)
      → any (has_user_id user_id) w.db.users ≡ false
      → upsert_account payload installation user_id w
        ≡ fail (thrown "Foreign key constraint violated") w
  unfolding upsert_account
  upsert_account-eq-fail user_id w unknown = rw unknown refl

  -- Tokens of the user, that has the GitHub account and whose new refresh token is remembered.
  pub record IsSignedIn (user_id : String) (before : List GitAccount) (tokens : Tokens) (w : World)
      : Type 0 where
    pub user : (u : User) × (u.id ≡ user_id) × (tokens ≡ get_tokens u)
    pub account : IsLinked payload.github_id user_id before w.db.git_accounts
    pub remembered :
        (v : User)
        → In v w.db.users
        → v.id ≡ user_id
        → v.hashed_refresh_token ≡ some (api.hash tokens.refresh_token)

  pub signed_in :
      (w : World) (u : User)
      → IsSignedIn u.id w.db.git_accounts (get_tokens u) (remembering (linked_world w u.id) u)
  signed_in w u = record {
    user = (u, refl, refl);
    account = upserted-IsLinked payload installation u.id w.db.git_accounts _ refl;
    remembered = λ v h e. remembering-remembered (linked_world w u.id) u v h e;
  }
