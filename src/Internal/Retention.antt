-- ===== src/Internal/Retention.antt =====
-- Which log entries the clean-up deletes.
use code2cloud.Prelude.{ℕ, ◌+◌, ◌≡◌, ◌≢◌, Bool, not, ◌&&◌, List, ◌∷◌, ◌++◌, ◌↔◌, In, length}
use code2cloud.Prelude.Int.{pos}
use code2cloud.Schema.{Deployment, SystemConfig, LogEntry}
use code2cloud.Prisma.{Prisma}
use code2cloud.World.{Database, World, Outcome, done, fail}
use code2cloud.Internal.{is_stale, is_zero}
use code2cloud.Internal.Dates.{IsOlder, HasDate, IsOwner}

-- The settings let an entry be deleted: they have a retention, the entry belongs to a deployment of
-- a project of their user, and it is older than the days of the retention.
abbrev pub LetsDelete : Database → ℕ → SystemConfig → LogEntry → Type 0
LetsDelete db now c l =
    (c.log_retention_days ≢ pos 0)
    × ((d : Deployment) × In d db.deployments
        × (d.id ≡ l.deployment_id)
        × IsOwner db c.user_id d.project_id)
    × IsOlder l.timestamp now c.log_retention_days 86400000

abbrev pub with_logs : World → List LogEntry → World
with_logs w logs = record w { db = record w.db { logs = logs } }

-- The entries left are those that none of the settings lets be deleted.
abbrev pub AreLeft : World → List SystemConfig → List LogEntry → Type 0
AreLeft w cs logs =
    (l : LogEntry)
    → In l logs ↔ (In l w.db.logs × ((c : SystemConfig) → In c cs → ¬ LetsDelete w.db w.now c l))

-- The retention leads to a date, or there is none.
abbrev pub IsDated : ℕ → SystemConfig → Type 0
IsDated now c = c.log_retention_days ≢ pos 0 → HasDate now c.log_retention_days 86400000

-- What the clean-up for some settings may do.
abbrev pub CleanupOutcome : World → List SystemConfig → Outcome ℕ → Type 0
CleanupOutcome w cs (done count w') =
    (logs : List LogEntry) × (w' ≡ with_logs w logs)
    × (length logs + count ≡ length w.db.logs)
    × AreLeft w cs logs
    × ((c : SystemConfig) → In c cs → IsDated w.now c)
CleanupOutcome w cs (fail e w') =
    (before : List SystemConfig) × (c : SystemConfig) × (after : List SystemConfig) × (cs
      ≡ before ++ c ∷ after)
    × (¬ IsDated w.now c)
    × (logs : List LogEntry) × (w' ≡ with_logs w logs)
    × AreLeft w before logs

-- The Boolean form of `LetsDelete`.
abbrev deletes : Database → ℕ → SystemConfig → LogEntry → Bool
deletes db now c l = not (is_zero c.log_retention_days) && is_stale db now c l

-- What one round may do.
abbrev RoundOutcome : World → SystemConfig → Outcome ℕ → Type 0
RoundOutcome w c (done n v) =
    (logs : List LogEntry) × (v ≡ with_logs w logs)
    × (length logs + n ≡ length w.db.logs)
    × ((l : LogEntry) → In l logs ↔ (In l w.db.logs × ¬ LetsDelete w.db w.now c l))
    × IsDated w.now c
RoundOutcome w c (fail e v) = (v ≡ w) × ¬ IsDated w.now c

module _ ⦃prisma : Prisma⦄ where
  -- The outcome after earlier rounds, which have counted `total`.
  abbrev CountedOutcome : World → List SystemConfig → ℕ → Outcome ℕ → Type 0
  CountedOutcome w cs total (done count w') =
      (n : ℕ) × (count ≡ total + n) × CleanupOutcome w cs (done n w')
  CountedOutcome w cs total (fail e w') = CleanupOutcome w cs (fail e w')
