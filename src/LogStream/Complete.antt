-- ===== src/LogStream/Complete.antt =====
-- What a viewer shows in the end: the whole log, or its beginning.
use mathlib.Core.List.{append-nil}
use code2cloud.Prelude.{
  ℕ, zero, suc, String, ◌≤◌, ◌+◌, ◌≡◌, refl, sym, ap, ◌∙◌, subst, Bool, true, false, Option, none,
  List, [], ◌∷◌, ◌++◌, ◌↔◌, inl, inr, In, length, filter, arith,
}
use code2cloud.Schema.{DeploymentStatus, LogSource, LogEntry, is_in_progress}
use code2cloud.Prisma.{Prisma}
use code2cloud.Deployments.{LogPage, log_where, log_page}
use code2cloud.Deployments.Paging.{length-take_le}
use code2cloud.LogStream.{
  Viewer, new_viewer, drip, drip_from, drips, start_drip, enqueue_logs, end_fetch, received, poll,
  settle, tick, ticks,
}
use code2cloud.LogStream.Page.{HasDistinctTimes}
use code2cloud.LogStream.Follow.{received-drip, received-end_fetch}
use code2cloud.LogStream.Refine.{Follows, IsFollowed, all_of}
use code2cloud.LogStream.Steps.{opened-IsFollowed}
use code2cloud.LogStream.Drain.{
  left, left-poll, received_all, Follows-poll, poll-eq, page_of, started,
}

polling-drip_from : (b : List LogEntry) (v : Viewer) → (drip_from b v).polling ≡ v.polling
polling-drip_from [] v = refl
polling-drip_from (x ∷ xs) v = refl

polling-enqueue_logs :
    (interval : ℕ) (ls : List LogEntry) (now : Bool) (v : Viewer)
    → (enqueue_logs interval ls now v).polling ≡ v.polling
unfolding enqueue_logs start_drip drip
polling-enqueue_logs interval [] now v = refl
polling-enqueue_logs interval (l ∷ ls) now v = ground (
  arith,
  polling-drip_from (v.buffer ++ l ∷ ls)
      (record v { buffer = v.buffer ++ l ∷ ls; is_dripping = true }),
)

polling-end_fetch :
    (interval : ℕ) (p : LogPage) (v : Viewer) → (end_fetch interval p v).polling ≡ v.polling
unfolding end_fetch
polling-end_fetch interval p v = by_logs p.logs refl
  where
    by_logs : (ls : List LogEntry) → p.logs ≡ ls → (end_fetch interval p v).polling ≡ v.polling
    by_logs [] e = rw e refl
    by_logs (x ∷ xs) e = rw e (
        polling-enqueue_logs interval (x ∷ xs) v.is_first_batch
          (record v { is_first_batch = false }))

-- Enough drips show what waits.
logs-drips : (n : ℕ) (v : Viewer) → length v.buffer ≤ n → (drips n v).logs ≡ received v
unfolding drip
logs-drips zero v h = by_buffer v.buffer h
  where
    by_buffer : (b : List LogEntry) → length b ≤ 0 → v.logs ≡ v.logs ++ b
    by_buffer [] h = sym (append-nil v.logs)
    by_buffer (x ∷ xs) h = absurd (omega (arith, h))
logs-drips (suc n) v h = logs-drips n (drip v) (shorter v.buffer h) ∙ received-drip v
  where
    shorter : (b : List LogEntry) → length b ≤ suc n → length (drip_from b v).buffer ≤ n
    shorter [] h = omega arith
    shorter (x ∷ xs) h = omega (arith, h)

length-append : {Row : Type 0} (xs ys : List Row) → length (xs ++ ys) ≡ length xs + length ys
length-append [] ys = omega arith
length-append (x ∷ xs) ys = omega (arith, length-append xs ys)

length-filter_le : {Row : Type 0} (p : Row → Bool) (t : List Row) → length (filter p t) ≤ length t
length-filter_le p [] = omega arith
length-filter_le p (x ∷ t) = ground (arith, length-filter_le p t)

module _ ⦃prisma : Prisma⦄ (interval : ℕ) (table : List LogEntry) (status : DeploymentStatus)
    (id : String) (source : Option LogSource) where
  is_live-poll :
      (v : Viewer)
      → v.is_fetching ≡ false
      → (poll interval table status id source v).is_live ≡ is_in_progress status
  unfolding end_fetch log_page
  is_live-poll v idle = rw (poll-eq interval table status id source v idle) refl

  is_idle-poll :
      (v : Viewer)
      → v.is_fetching ≡ false
      → (poll interval table status id source v).is_fetching ≡ false
  unfolding end_fetch
  is_idle-poll v idle = rw (poll-eq interval table status id source v idle) refl

  is_loaded-poll :
      (v : Viewer)
      → v.is_fetching ≡ false
      → (poll interval table status id source v).is_loading ≡ false
  unfolding end_fetch
  is_loaded-poll v idle = rw (poll-eq interval table status id source v idle) refl

  polling-poll :
      (v : Viewer)
      → v.is_fetching ≡ false
      → (poll interval table status id source v).polling ≡ v.polling
  polling-poll v idle = rw (poll-eq interval table status id source v idle) (
      polling-end_fetch interval (page_of interval table status id source v)
        (record v { is_fetching = true }))

  -- A tick while the deployment is in progress is a poll.
  tick-live :
      (v : Viewer)
      → is_in_progress status ≡ true
      → v.is_fetching ≡ false
      → v.polling ≡ true
      → tick interval table status id source v ≡ poll interval table status id source v
  unfolding tick settle
  tick-live v live idle on = ground (arith, is_live-poll v idle)

  tick-off : (v : Viewer) → v.polling ≡ false → tick interval table status id source v ≡ v
  unfolding tick
  tick-off v off = ground (arith, off)

  -- A viewer between two polls of a deployment in progress.
  record IsAwake (v : Viewer) : Type 0 where
    idle : v.is_fetching ≡ false
    on : v.polling ≡ true
    follows : Follows interval id source table v

  module _ (distinct : HasDistinctTimes id table) where
    IsAwake-poll : (v : Viewer) → IsAwake v → IsAwake (poll interval table status id source v)
    IsAwake-poll v a = record {
      idle = is_idle-poll v a.idle;
      on = polling-poll v a.idle ∙ a.on;
      follows = Follows-poll interval table status id source distinct v a.idle a.follows;
    }

    new_viewer-Follows : Follows interval id source table new_viewer
    new_viewer-Follows = IsFollowed.follows (opened-IsFollowed interval id source table distinct)

    new_viewer-IsAwake : IsAwake new_viewer
    new_viewer-IsAwake = record { idle = refl; on = refl; follows = new_viewer-Follows }

    abbrev IsDrained : Viewer → Type 0
    IsDrained v = IsAwake v × (left interval table status id source v.cursor ≡ 0)

    ticks-IsDrained :
        is_in_progress status ≡ true
        → (n : ℕ) (v : Viewer) → IsAwake v
        → left interval table status id source v.cursor ≤ n
        → IsDrained (ticks interval table status id source n v)
    ticks-IsDrained live zero v a h = (a, omega (arith, h))
    ticks-IsDrained live (suc n) v a h =
        subst (λ w. IsDrained (ticks interval table status id source n w))
          (sym (tick-live v live a.idle a.on))
          (ticks-IsDrained live n (poll interval table status id source v) (IsAwake-poll v a)
            (elim (left-poll interval table status id source distinct v a.idle a.follows) [
              | inl nothing ↦ omega (arith, nothing)
              | inr fewer ↦ omega (arith, fewer, h)
            ]))

    -- A viewer of a deployment in progress, whose logs have distinct times, shows after as many polls
    -- as the table has logs, and as many drips as then wait, exactly the logs of the table that match.
    pub ticks_complete :
        is_in_progress status ≡ true
        → (n : ℕ) → length table ≤ n
        → (r : LogEntry)
        → let v = ticks interval table status id source n new_viewer in
          In r (drips (length v.buffer) v).logs
          ↔ (In r table × (log_where id (all_of source) r ≡ true))
    ticks_complete live n h r =
        let few : left interval table status id source none ≤ n =
          omega (arith, h, length-filter_le (log_where id (all_of source)) table) in
        let (a, nothing) = ticks-IsDrained live n new_viewer new_viewer-IsAwake few in
        let v = ticks interval table status id source n new_viewer in
        rw (logs-drips (length v.buffer) v (omega arith))
          (received_all interval table status id source distinct v a.follows nothing r)

    length-page : (v : Viewer) → length (page_of interval table status id source v).logs ≤ 200
    unfolding log_page
    length-page v = length-take_le 200 _

    length-poll :
        (v : Viewer)
        → v.is_fetching ≡ false
        → Follows interval id source table v
        → length (received (poll interval table status id source v)) ≤ length (received v) + 200
    length-poll v idle f =
        rw
          (
            poll-eq interval table status id source v idle,
            received-end_fetch interval (page_of interval table status id source v)
                (record v { is_fetching = true })
                (started interval table status id source distinct v f).orderly,
            length-append (received v) (page_of interval table status id source v).logs,
          )
          (omega (arith, length-page v))

    tick-finished :
        (v : Viewer)
        → is_in_progress status ≡ false
        → IsAwake v
        → tick interval table status id source v
          ≡ record (poll interval table status id source (poll interval table status id source v)) {
            polling = false;
          }
    unfolding tick settle
    tick-finished v over a =
        ground (arith, a.on, is_live-poll v a.idle, is_loaded-poll v a.idle, (IsAwake-poll v a).on)

    ticks-off :
        (n : ℕ) (v : Viewer) → v.polling ≡ false → ticks interval table status id source n v ≡ v
    ticks-off zero v off = refl
    ticks-off (suc n) v off =
        ap (ticks interval table status id source n) (tick-off v off) ∙ ticks-off n v off

    -- If the log entries of the deployment have distinct times, a viewer that is opened when the
    -- deployment is no longer in progress never receives more than 400 logs, whatever the length of
    -- the log and the number of its ticks.
    pub ticks-finished_le :
        is_in_progress status ≡ false
        → (n : ℕ) → length (received (ticks interval table status id source n new_viewer)) ≤ 400
    ticks-finished_le over zero = omega arith
    ticks-finished_le over (suc n) =
        let b = IsAwake-poll new_viewer new_viewer-IsAwake in
        let once = length-poll new_viewer refl new_viewer-Follows in
        let twice =
          length-poll (poll interval table status id source new_viewer) b.idle b.follows in
        let stopped = tick-finished new_viewer over new_viewer-IsAwake in
        let same =
          ticks-off n (tick interval table status id source new_viewer)
            (ap (λ (v : Viewer). v.polling) stopped) in
        subst (λ v. length (received v) ≤ 400) (sym (same ∙ stopped)) (omega (arith, once, twice))
