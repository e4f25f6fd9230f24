-- ===== src/Auth.antt =====
-- apps/api/src/auth/auth.service.ts: signing in and out, and the rotation of refresh tokens.
pub mod Refresh
pub mod Accounts
pub mod Link
pub mod SignedIn
pub mod Callback
use code2cloud.Prelude.{
  ◌≡◌, String, Bool, true, false, Option, none, some, ◌==◌, ◌&&◌, truthy, or_else,
}
use code2cloud.Schema.{User}
use code2cloud.Prisma.{Prisma}
use code2cloud.World.{
  World, Act, unauthorized, forbidden, pure, ◌>>=◌, ◌>>◌, get, guard, require, set_users,
}

-- The payload of a token.
pub record Claims : Type 0 where
  pub sub : String
  pub email : String
  pub name : String
  pub avatar : Option String

pub record Tokens : Type 0 where
  pub access_token : String
  pub refresh_token : String

-- bcrypt with ten rounds, and with twelve for passwords, its salt drawn, and the signing of tokens under the two secrets.
pub record AuthApi : Type 0 where
  pub hash : String → String
  pub hash_password : String → String
  pub compare : (text hashed : String) → Bool
  pub sign_access : Claims → String
  pub sign_refresh : Claims → String

abbrev pub has_user_id : String → User → Bool
has_user_id id u = u.id == id

-- hashedRefreshToken: { not: null }
abbrev pub remembers : User → Bool
remembers u = elim u.hashed_refresh_token [ none ↦ false | some _ ↦ true ]

abbrev pub claims_of : User → Claims
claims_of u = record { sub = u.id; email = u.email; name = or_else u.name ""; avatar = u.avatar }

module _ ⦃api : AuthApi⦄ where
  abbrev pub get_tokens : User → Tokens
  get_tokens u = record {
    access_token = api.sign_access (claims_of u);
    refresh_token = api.sign_refresh (claims_of u);
  }

  -- `bcrypt.compare(text, hashed)`, where a missing hash is none or an empty text.
  abbrev pub matches : String → Option String → Bool
  matches text none = api.compare text ""
  matches text (some hashed) = api.compare text hashed

module _ ⦃prisma : Prisma⦄ ⦃api : AuthApi⦄ where
  unfoldable pub update_refresh_token_hash : String → String → Act (Unit {0})
  update_refresh_token_hash user_id token = do
    w ← get
    set_users (
        prisma.update (has_user_id user_id)
          (λ u. record u { hashed_refresh_token = some (api.hash token) }) w.db.users)

  -- New tokens, whose refresh token is the one that is remembered.
  unfoldable pub issue : User → Act Tokens
  issue u = do update_refresh_token_hash u.id (get_tokens u).refresh_token; pure (get_tokens u)

  unfoldable pub sign_in : (email password : String) → Act Tokens
  sign_in email password = do
    w ← get
    u ←
        require (prisma.find_first (λ (u : User). u.email == email) w.db.users)
          (unauthorized "Invalid credentials")
    guard (matches password u.password) (unauthorized "Invalid credentials")
    issue u

  unfoldable pub logout : String → Act Bool
  logout user_id = do
    w ← get
    set_users (
        prisma.update (λ u. has_user_id user_id u && remembers u)
          (λ u. record u { hashed_refresh_token = none }) w.db.users)
    pure true

  unfoldable pub refresh_tokens : (user_id token : String) → Act Tokens
  refresh_tokens user_id token = do
    w ← get
    u ← require (prisma.find_first (has_user_id user_id) w.db.users) (forbidden "Access Denied")
    guard (truthy u.hashed_refresh_token) (forbidden "Access Denied")
    guard (matches token u.hashed_refresh_token) (forbidden "Access Denied")
    issue u
