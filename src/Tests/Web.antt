-- ===== src/Tests/Web.antt =====
-- Runs of the web interface.
use code2cloud.Prelude.{ℕ, ◌≤◌, ◌≡◌, refl, true, none, List, [], ◌∷◌, ◌↔◌, In, length, arith}
use code2cloud.Schema.{LogEntry, building, ready, build}
use code2cloud.Deployments.{LogPage, log_where, log_page}
use code2cloud.LogStream.{
  new_viewer, begin_fetch, end_fetch, enqueue_logs, log_query, received, drip, drips, ticks, poll,
  settle, tick,
}
use code2cloud.LogStream.Page.{IsStrict, time_of, HasDistinctTimes}
use code2cloud.LogStream.Refine.{Session, IsSeen, all_of, Reach, here, next, ask, arrive, show}
use code2cloud.LogStream.Steps.{opened, Reach-received_exact}
use code2cloud.LogStream.Complete.{ticks_complete, ticks-finished_le}
use code2cloud.Tests.Client.{list_client}

abbrev line : ℕ → LogEntry
line t = record {
  id = "l";
  deployment_id = "d2";
  source = build;
  timestamp = t;
  message = "compiled";
}

abbrev two_lines : List LogEntry
two_lines = line 20 ∷ line 10 ∷ []

two_lines-HasDistinctTimes : HasDistinctTimes "d2" two_lines
two_lines-HasDistinctTimes k = ground arith

abbrev first_page : LogPage
first_page = log_page two_lines building "d2" (log_query none new_viewer)

abbrev answered : Session
answered = record {
  table = two_lines;
  viewer = drip (end_fetch 80 first_page (begin_fetch new_viewer));
  answer = none;
}

two_lines-Reach : Reach 80 "d2" none (opened 80 "d2" none two_lines) answered
two_lines-Reach = next (next (next here (ask building refl)) (arrive first_page refl)) show

Reach-received_exact_example :
    IsStrict time_of (received answered.viewer)
    × ((r : LogEntry)
        → In r (received answered.viewer) ↔ (
            In r two_lines
            × (log_where "d2" (all_of none) r ≡ true)
            × IsSeen answered.viewer.cursor r.timestamp))
Reach-received_exact_example =
    Reach-received_exact 80 "d2" none two_lines two_lines-HasDistinctTimes two_lines-Reach

received_two :
    received (ticks 80 two_lines building "d2" none 2 new_viewer) ≡ line 10 ∷ line 20 ∷ []
unfolding tick poll settle begin_fetch end_fetch log_page enqueue_logs
received_two = refl

ticks_complete_example :
    let v = ticks 80 two_lines building "d2" none 2 new_viewer in
    In (line 10) (drips (length v.buffer) v).logs
    ↔ (In (line 10) two_lines × (log_where "d2" (all_of none) (line 10) ≡ true))
ticks_complete_example =
    ticks_complete 80 two_lines building "d2" none two_lines-HasDistinctTimes refl 2 (omega arith)
      (line 10)

ticks-finished_le_example :
    length (received (ticks 80 two_lines ready "d2" none 9 new_viewer)) ≤ 400
ticks-finished_le_example =
    ticks-finished_le 80 two_lines ready "d2" none two_lines-HasDistinctTimes refl 9
