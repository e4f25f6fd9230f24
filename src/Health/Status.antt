-- ===== src/Health/Status.antt =====
-- What the states of the parts say of the whole.
use mathlib.Core.Bool.{true≢false}
use code2cloud.Prelude.{
  String, all, [], ◌∷◌, if◌then◌else◌, ◌≡◌, ◌↔◌, refl, Bool, true, false, Option, none, some, ◌&&◌,
  ◌||◌, arith, not,
}
use code2cloud.Health.{
  Reply, answered, rejected, Redis, Surroundings, is_database_healthy, is_pong, is_redis_healthy,
  check_readiness, check_database, check_redis, ping_health, check_memory, OverallStatus, healthy,
  unhealthy, degraded, get_full_health, is_down, ok_code, service_unavailable, readiness, startup,
  is_unhealthy, health,
}

is_down-check_database : (r : Reply) → is_down (check_database r) ≡ not (is_database_healthy r)
is_down-check_database (answered rows time) = refl
is_down-check_database (rejected why time) = refl

-- A Redis that is up has answered the ping.
is_redis_healthy_up :
    (used_memory : String → Option String) (o : Option Redis)
    → is_down (check_redis used_memory o) ≡ false
    → is_redis_healthy o ≡ true
is_redis_healthy_up used_memory none e = refl
is_redis_healthy_up used_memory (some r) e = by_ping r.ping r.info e
  where
    by_ping :
        (ping info : Reply)
        → is_down (ping_health used_memory ping info) ≡ false
        → is_pong ping ≡ true
    by_ping (answered text time) info e = ground arith
    by_ping (rejected why time) info e = absurd (true≢false e)

check_readiness_eq :
    (s : Surroundings)
    → check_readiness s ≡ (is_database_healthy s.database && is_redis_healthy s.redis)
unfolding check_readiness
check_readiness_eq s = by_redis (is_database_healthy s.database) s.redis
  where
    by_redis :
        (b : Bool) (o : Option Redis)
        → all (λ (v : Bool). v) (b ∷ elim o [ none ↦ [] | some r ↦ is_redis_healthy (some r) ∷ [] ])
          ≡ (b && is_redis_healthy o)
    by_redis b none = refl
    by_redis b (some r) = ground arith

-- The whole is unhealthy exactly if the database is down, and then it is not ready; if it is
-- healthy, it is ready: a degraded one may be ready or not.
pub get_full_health_lem :
    (s : Surroundings)
    → (((get_full_health s).0 ≡ unhealthy) ↔ (is_database_healthy s.database ≡ false))
      × ((get_full_health s).0 ≡ unhealthy → check_readiness s ≡ false)
      × ((get_full_health s).0 ≡ healthy → check_readiness s ≡ true)
unfolding get_full_health
get_full_health_lem s =
    rw (is_down-check_database s.database, check_readiness_eq s)
      (by_states (is_database_healthy s.database) (is_down (check_redis s.used_memory s.redis))
        (is_down (check_memory s.heap_used s.heap_total)) (is_redis_healthy s.redis)
        (is_redis_healthy_up s.used_memory s.redis))
  where
    whole : (d r m : Bool) → OverallStatus
    whole d r m =
        if not d || (r || (m || false))
        then (if not d || false then unhealthy else degraded)
        else healthy

    by_states :
        (d r m k : Bool)
        → (r ≡ false → k ≡ true)
        → ((whole d r m ≡ unhealthy) ↔ (d ≡ false))
          × (whole d r m ≡ unhealthy → d && k ≡ false)
          × (whole d r m ≡ healthy → d && k ≡ true)
    by_states d r m k h = ground (arith, h)

-- A process that is told to be ready is never told to be unhealthy, whatever the route is that asks.
pub health-readiness :
    (s : Surroundings)
    → (readiness s).0 ≡ ok_code
    → ((health s).0 ≡ ok_code) × (startup s ≡ readiness s)
unfolding readiness startup health
health-readiness s e =
    (by_state (check_readiness s) (get_full_health s).0 (get_full_health_lem s).1 e, refl)
  where
    by_state :
        (ready : Bool) (o : OverallStatus)
        → (o ≡ unhealthy → ready ≡ false)
        → (if ready then ok_code else service_unavailable) ≡ ok_code
        → (if is_unhealthy o then service_unavailable else ok_code) ≡ ok_code
    by_state ready healthy h e = refl
    by_state ready degraded h e = refl
    by_state true unhealthy h e = absurd (true≢false (h refl))
    by_state false unhealthy h e = e
