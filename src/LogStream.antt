-- ===== src/LogStream.antt =====
-- apps/web/hooks/use-deployment-logs.ts: the hook that follows the log of a deployment. It polls
-- `getLogs` of the API, and shows what it receives one entry at a time.
-- The React state and the refs are one record; the timers and the answers are events. The hook is
-- enabled, and a deployment is given.
pub mod Page
pub mod Follow
pub mod Refine
pub mod Steps
pub mod Drain
pub mod Complete
use code2cloud.Prelude.{
  ℕ, zero, suc, String, Bool, true, false, not, Option, none, some, List, [], ◌∷◌, ◌++◌, ◌&&◌, ◌||◌,
  nat_eq, if◌then◌else◌,
}
use code2cloud.Schema.{DeploymentStatus, LogSource, LogEntry}
use code2cloud.Prisma.{Prisma}
use code2cloud.Deployments.{LogOptions, LogPage, log_page}

pub record Viewer : Type 0 where
  pub logs : List LogEntry
  pub buffer : List LogEntry
  pub cursor : Option ℕ
  pub is_dripping : Bool
  pub is_fetching : Bool
  pub is_first_batch : Bool
  pub is_live : Bool
  pub is_loading : Bool
  pub status : Option DeploymentStatus
  pub has_error : Bool
  -- the interval of the polls is set
  pub polling : Bool

abbrev pub new_viewer : Viewer
new_viewer = record {
  logs = [];
  buffer = [];
  cursor = none;
  is_dripping = false;
  is_fetching = false;
  is_first_batch = true;
  is_live = false;
  is_loading = true;
  status = none;
  has_error = false;
  polling = true;
}

-- The callback of the drip timer: the next entry of the buffer is shown.
abbrev pub drip_from : List LogEntry → Viewer → Viewer
drip_from [] v = record v { buffer = []; is_dripping = false }
drip_from (next ∷ rest) v = record v { buffer = rest; logs = v.logs ++ next ∷ [] }

unfoldable pub drip : Viewer → Viewer
drip v = drip_from v.buffer v

unfoldable pub start_drip : Viewer → Viewer
start_drip v = if v.is_dripping then v else drip (record v { is_dripping = true })

-- `dripInterval` in milliseconds.
unfoldable pub enqueue_logs : ℕ → List LogEntry → Bool → Viewer → Viewer
enqueue_logs interval [] immediate v = v
enqueue_logs interval (l ∷ ls) immediate v =
    if immediate || nat_eq interval 0
    then record v { logs = v.logs ++ l ∷ ls }
    else start_drip (record v { buffer = v.buffer ++ l ∷ ls })

abbrev pub receive_logs : ℕ → List LogEntry → Option ℕ → Viewer → Viewer
receive_logs interval [] next v = v
receive_logs interval (l ∷ ls) next v =
    record (enqueue_logs interval (l ∷ ls) v.is_first_batch (record v { is_first_batch = false })) {
      cursor = next;
    }

-- `fetchLogs` sends nothing while an answer is awaited.
unfoldable pub begin_fetch : Viewer → Viewer
begin_fetch v = if v.is_fetching then v else record v { is_fetching = true }

-- What follows `await api.get(url)`, the `finally` block included.
unfoldable pub end_fetch : ℕ → LogPage → Viewer → Viewer
end_fetch interval page v = record (receive_logs interval page.logs page.next_cursor v) {
  is_live = page.is_live;
  status = some page.status;
  has_error = false;
  is_loading = false;
  is_fetching = false;
}

unfoldable pub fail_fetch : Viewer → Viewer
fail_fetch v = record v { has_error = true; is_loading = false; is_fetching = false }

-- The query of `fetchLogs`.
abbrev pub log_query : Option LogSource → Viewer → LogOptions
log_query source v = record { source = source; after = v.cursor; limit = some 200 }

-- Another deployment or another source: the effects empty the view and set the interval anew; an
-- answer that is awaited stays so.
unfoldable pub reset : Viewer → Viewer
reset v = record v {
  logs = [];
  is_loading = true;
  has_error = false;
  cursor = none;
  buffer = [];
  is_first_batch = true;
  is_dripping = false;
  polling = true;
}

unfoldable pub clear : Viewer → Viewer
clear v = record v {
  logs = [];
  buffer = [];
  cursor = none;
  is_first_batch = true;
  is_dripping = false;
}

-- What was received: what is shown and what waits to be shown.
abbrev pub received : Viewer → List LogEntry
received v = v.logs ++ v.buffer

module _ ⦃prisma : Prisma⦄ (interval : ℕ) (table : List LogEntry) (status : DeploymentStatus)
    (id : String) (source : Option LogSource) where
  -- A call of `fetchLogs` with its answer, nothing happening in between.
  unfoldable pub poll : Viewer → Viewer
  poll v =
      if v.is_fetching
      then v
      else end_fetch interval (log_page table status id (log_query source v)) (begin_fetch v)

  -- The effect on `isLive` and `isLoading`: a last call, and the interval is cleared.
  unfoldable pub settle : Viewer → Viewer
  settle v =
      if not v.is_live && (not v.is_loading && v.polling)
      then record (poll v) { polling = false }
      else v

  -- A tick of the interval, which does nothing once it is cleared.
  unfoldable pub tick : Viewer → Viewer
  tick v = if v.polling then settle (poll v) else v

  abbrev pub ticks : ℕ → Viewer → Viewer
  ticks zero v = v
  ticks (suc n) v = ticks n (tick v)

-- What the drip timer does in a number of ticks.
abbrev pub drips : ℕ → Viewer → Viewer
drips zero v = v
drips (suc n) v = drips n (drip v)
