-- ===== src/World.antt =====
-- The state that a request sees and the effects that it has: the tables of the database
-- (apps/api/prisma/schema.prisma), the clock, and the commands sent so far. A service method is an
-- action: it returns or throws, and what was written before a throw stays written.
-- The clock does not move within a request.
pub mod Laws
use code2cloud.Prelude.{
  ℕ, String, Bool, true, false, Option, none, some, List, [], ◌∷◌, ◌++◌, if◌then◌else◌,
}
use code2cloud.Schema.{
  User, GitAccount, Project, EnvironmentVariable, Deployment, Domain, SystemConfig, LogEntry,
}
use code2cloud.Jobs.{Command}
use code2cloud.Prisma.{Prisma}

pub record Database : Type 0 where
  pub users : List User
  pub git_accounts : List GitAccount
  pub projects : List Project
  pub env_vars : List EnvironmentVariable
  pub deployments : List Deployment
  pub domains : List Domain
  pub configs : List SystemConfig
  pub logs : List LogEntry

-- `redis_up` tells whether the Redis client's commands succeed.
pub record World : Type 0 where
  pub db : Database
  pub now : ℕ
  pub redis_up : Bool
  pub sent : List Command

-- The exceptions of @nestjs/common by their status, and any other.
pub data Error : Type 0 where
  not_found bad_request unauthorized forbidden thrown : String → Error

pub data Outcome (A : Type 0) : Type 0 where
  done : A → World → Outcome A
  fail : Error → World → Outcome A

abbrev pub Act : Type 0 → Type 0
Act A = World → Outcome A

abbrev pub world_of : {A : Type 0} → Outcome A → World
world_of (done a w) = w
world_of (fail e w) = w

abbrev pub pure : {A : Type 0} → A → Act A
pure a w = done a w

abbrev pub throw : {A : Type 0} → Error → Act A
throw e w = fail e w

infixl 5 ◌>>=◌ ◌>>◌
abbrev pub ◌>>=◌ : {A B : Type 0} → Act A → (A → Act B) → Act B
◌>>=◌ m f w = elim (m w) [ done a w' ↦ f a w' | fail e w' ↦ fail e w' ]

abbrev pub ◌>>◌ : {B : Type 0} → Act (Unit {0}) → Act B → Act B
m >> k = m >>= λ _. k

abbrev pub get : Act World
get w = done w w

abbrev pub set_db : Database → Act (Unit {0})
set_db d w = done tt (record w { db = d })

abbrev pub guard : Bool → Error → Act (Unit {0})
guard true e w = done tt w
guard false e w = fail e w

-- `if (test) m`.
abbrev pub when : Bool → Act (Unit {0}) → Act (Unit {0})
when true m w = m w
when false m w = done tt w

-- `if (!row) throw new NotFoundException(message)`.
abbrev pub require : {A : Type 0} → Option A → Error → Act A
require none e w = fail e w
require (some a) e w = done a w

-- `try { m } catch { }`.
abbrev pub attempt : Act (Unit {0}) → Act (Unit {0})
attempt m w = elim (m w) [ done _ w' ↦ done tt w' | fail _ w' ↦ done tt w' ]

-- `for (const x of xs) await f(x)`.
abbrev pub for_each : {A : Type 0} → List A → (A → Act (Unit {0})) → Act (Unit {0})
for_each [] f = pure tt
for_each (x ∷ xs) f = let rest = for_each xs f in f x >>= λ _. rest

-- A command to Redis is sent, or its call throws.
abbrev pub deliver : Bool → Command → Act (Unit {0})
deliver true c w = done tt (record w { sent = w.sent ++ c ∷ [] })
deliver false c w = fail (thrown "Redis connection error") w

abbrev pub send_redis : Command → Act (Unit {0})
send_redis c w = deliver w.redis_up c w

abbrev pub set_deployments : List Deployment → Act (Unit {0})
set_deployments t w = done tt (record w { db = record w.db { deployments = t } })

abbrev pub set_projects : List Project → Act (Unit {0})
set_projects t w = done tt (record w { db = record w.db { projects = t } })

abbrev pub set_env_vars : List EnvironmentVariable → Act (Unit {0})
set_env_vars t w = done tt (record w { db = record w.db { env_vars = t } })

abbrev pub set_domains : List Domain → Act (Unit {0})
set_domains t w = done tt (record w { db = record w.db { domains = t } })

abbrev pub set_configs : List SystemConfig → Act (Unit {0})
set_configs t w = done tt (record w { db = record w.db { configs = t } })

abbrev pub set_logs : List LogEntry → Act (Unit {0})
set_logs t w = done tt (record w { db = record w.db { logs = t } })

abbrev pub set_users : List User → Act (Unit {0})
set_users t w = done tt (record w { db = record w.db { users = t } })

abbrev pub set_git_accounts : List GitAccount → Act (Unit {0})
set_git_accounts t w = done tt (record w { db = record w.db { git_accounts = t } })

-- `this.prisma.$transaction(m)`: what a throw leaves of the writes to the database is Prisma's.
abbrev pub transaction : ⦃prisma : Prisma⦄ → {A : Type 0} → Act A → Act A
transaction ⦃prisma⦄ m w = elim (m w) [
  | done a w' ↦ done a w'
  | fail e w' ↦ fail e (record w' { db = prisma.rollback w.db w'.db })
]
