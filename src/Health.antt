-- ===== src/Health.antt =====
-- apps/api/src/health/health.service.ts: whether the API lives, is ready, and how its parts are. What
-- the database, Redis and the process answer is a record; a time of answer is in milliseconds.
pub mod Status
use code2cloud.Prelude.{
  ℕ, String, ◌≡◌, ◌+◌, ◌*◌, ◌/◌, Bool, true, false, not, Option, none, some, List, [], ◌∷◌, ◌&&◌,
  ◌==◌, any, all, or_else, ltb, if◌then◌else◌,
}

-- An answer after some time, or a rejection with the message of its error, if it is an Error.
pub data Reply : Type 0 where
  answered : String → ℕ → Reply
  rejected : Option String → ℕ → Reply

-- The client of Redis, whose `ping` is rejected after three seconds at the latest.
pub record Redis : Type 0 where
  pub ping : Reply
  pub info : Reply

pub record Surroundings : Type 0 where
  pub database : Reply
  -- none if REDIS_URL is not set
  pub redis : Option Redis
  pub heap_used : ℕ
  pub heap_total : ℕ
  -- the match of /used_memory_human:(.+)/, trimmed
  pub used_memory : String → Option String

pub data ComponentStatus : Type 0 where
  up down : ComponentStatus

pub record ComponentHealth : Type 0 where
  pub status : ComponentStatus
  pub response_time : Option ℕ
  pub message : String
  pub details : Option String

pub data OverallStatus : Type 0 where
  healthy unhealthy degraded : OverallStatus

abbrev pub is_down : ComponentHealth → Bool
is_down c = elim c.status [ up ↦ false | down ↦ true ]

abbrev pub error_message : Option String → String → String
error_message none text = text
error_message (some message) text = message

abbrev pub is_database_healthy : Reply → Bool
is_database_healthy (answered rows time) = true
is_database_healthy (rejected why time) = false

abbrev pub is_pong : Reply → Bool
is_pong (answered text time) = text == "PONG"
is_pong (rejected why time) = false

abbrev pub is_redis_healthy : Option Redis → Bool
is_redis_healthy none = true
is_redis_healthy (some r) = is_pong r.ping

-- The values of `checks`.
abbrev pub readiness_checks : Surroundings → List Bool
readiness_checks s =
    is_database_healthy s.database
    ∷ elim s.redis [ none ↦ [] | some r ↦ is_redis_healthy (some r) ∷ [] ]

-- "ready", or "not_ready".
unfoldable pub check_readiness : Surroundings → Bool
check_readiness s = all (λ v. v) (readiness_checks s)

abbrev pub check_database : Reply → ComponentHealth
check_database (answered rows time) = record {
  status = up;
  response_time = some time;
  message = "Database connection successful";
  details = none;
}
check_database (rejected why time) = record {
  status = down;
  response_time = some time;
  message = error_message why "Database connection failed";
  details = none;
}

-- The answer to INFO, after a PONG.
abbrev pub redis_details : (String → Option String) → ℕ → Reply → ComponentHealth
redis_details used_memory time (answered text more) = record {
  status = up;
  response_time = some time;
  message = "Redis connection successful";
  details = some (or_else (used_memory text) "unknown");
}
redis_details used_memory time (rejected why more) = record {
  status = down;
  response_time = some (time + more);
  message = error_message why "Redis connection failed";
  details = none;
}

abbrev pub ping_health : (String → Option String) → Reply → Reply → ComponentHealth
ping_health used_memory (answered text time) info =
    if text == "PONG" then redis_details used_memory time info else record {
      status = down;
      response_time = some time;
      message = "Unexpected Redis response";
      details = none;
    }
ping_health used_memory (rejected why time) info = record {
  status = down;
  response_time = some time;
  message = error_message why "Redis connection failed";
  details = none;
}

abbrev pub check_redis : (String → Option String) → Option Redis → ComponentHealth
check_redis used_memory none = record {
  status = up;
  response_time = none;
  message = "Redis not configured (optional)";
  details = none;
}
check_redis used_memory (some r) = ping_health used_memory r.ping r.info

-- `Math.round((heapUsed / heapTotal) * 100)`, of doubles that are taken as exact.
abbrev pub heap_percentage : (used total : ℕ) → ℕ
heap_percentage used total = (200 * used + total) / (2 * total)

-- The details, which only print the numbers, are left out.
abbrev pub check_memory : (used total : ℕ) → ComponentHealth
check_memory used total =
    let high = ltb 90 (heap_percentage used total) in
    record {
      status = if high then down else up;
      response_time = none;
      message = if high then "High memory usage detected" else "Memory usage normal";
      details = none;
    }

pub record Checks : Type 0 where
  pub database : ComponentHealth
  pub redis : ComponentHealth
  pub memory : ComponentHealth

abbrev pub checks_of : Surroundings → Checks
checks_of s = record {
  database = check_database s.database;
  redis = check_redis s.used_memory s.redis;
  memory = check_memory s.heap_used s.heap_total;
}

-- Only the database is a critical service.
abbrev pub overall_status : Checks → OverallStatus
overall_status c =
    if any is_down (c.database ∷ c.redis ∷ c.memory ∷ [])
    then if any is_down (c.database ∷ []) then unhealthy else degraded
    else healthy

-- The status and the checks; the time, the version and the uptime are left out.
unfoldable pub get_full_health : Surroundings → OverallStatus × Checks
get_full_health s = (overall_status (checks_of s), checks_of s)

-- HealthController: the code of an answer and the result in it. `startup` asks as `readiness` does.
abbrev pub ok_code : ℕ
ok_code = 200

abbrev pub service_unavailable : ℕ
service_unavailable = 503

unfoldable pub readiness : Surroundings → ℕ × Bool
readiness s =
    let ready = check_readiness s in (if ready then ok_code else service_unavailable, ready)

unfoldable pub startup : Surroundings → ℕ × Bool
startup s = let ready = check_readiness s in (if ready then ok_code else service_unavailable, ready)

abbrev pub is_unhealthy : OverallStatus → Bool
is_unhealthy healthy = false
is_unhealthy unhealthy = true
is_unhealthy degraded = false

unfoldable pub health : Surroundings → ℕ × (OverallStatus × Checks)
health s =
    let full = get_full_health s in
    (if is_unhealthy full.0 then service_unavailable else ok_code, full)
