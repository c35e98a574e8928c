-- ===== src/Notification/Delivery.antt =====
-- The notification worker of src/aegis_services/notification/worker.py behind the consume loop of
-- src/aegis_common/kafka.py.
use aegis_project.Prelude.{
  ◌+◌, ◌≤◌, ◌≡◌, Bool, All, ap, refl, ◌∙◌, String, true, false, List, [], ◌∷◌, map, keep, length,
  str_eq,
}
use aegis_project.Events.{IncidentEvent}
use aegis_project.Bus.{Handler, Event, run}
use aegis_project.Bus.Laws.{replay}
use aegis_project.Bus.Delivery.{Commits, Subsequence, IsRecord, at_start}
use aegis_project.Bus.CaughtUp.{polls, polls-Complete}
use aegis_project.Notification.{Channel, Sinks, page_text, log_line, handle}
use aegis_project.Notification.Laws.{handle_all, is_page, handle_all-pages}

abbrev pub silent : Sinks
silent = record { log = []; posted = []; failures = 0 }

module _ (channel : Channel) {D : Type 0} where
  -- The handler that `run` gives to `consume`: a post that fails is caught.
  unfoldable pub on_event : Handler (IncidentEvent D) Sinks
  unfolding handle
  on_event e s = (true, handle channel e s)

  replay-handle_all :
      (es : List (IncidentEvent D)) (s : Sinks) → replay on_event es s ≡ handle_all channel es s
  unfolding on_event
  replay-handle_all [] s = refl
  replay-handle_all (e ∷ es) s = replay-handle_all es (handle channel e s)

  -- What the worker has logged and posted: for some sequence of events of the topic, in which each
  -- event occurs at least once and in order, a log line for every one and a page for every one
  -- that is opened, escalated, resolved or plan proposed; under the condition `once` the sequence
  -- is the topic itself.
  pub record Paged (once : Type 0) (log : List (IncidentEvent D)) (sinks : Sinks) : Type 0 where
    pub handled : List (IncidentEvent D)
    pub logged : sinks.log ≡ map (λ e. log_line channel e) handled
    pub posted : sinks.posted ≡ map (λ e. page_text channel e) (keep (is_page channel) handled)
    pub at_least_once : Subsequence log handled
    pub from_log : All (IsRecord log) handled
    pub exactly : once → handled ≡ log

  -- With a webhook that takes every post: whatever was published, polled and restarted before and
  -- whichever commits failed (or were not reached before the process ended), a worker that is then
  -- polled as often as records are left has gone through a sequence of events of the topic in
  -- which every event of the topic occurs at least once and in the topic's order, with a log line
  -- for each and a page for each that is opened, escalated, resolved or plan proposed, and nothing
  -- else. If no commit failed, the sequence is the topic: once each.
  pub delivered_pages :
      (before : List (Event (IncidentEvent D))) (commits : List Bool)
      → str_eq channel.webhook "" ≡ false
      → ((text : String) → channel.delivers text ≡ true)
      → let (c, s) = run on_event before (at_start [], silent) in
        length c.log ≤ c.position + length commits
        → Paged
            (All Commits before × All (λ b. b ≡ true) commits)
            c.log
            (run on_event (polls commits) (c, s)).1
  delivered_pages before commits hw hd k =
      let total : (e : IncidentEvent D) (s : Sinks) → (on_event e s).0 ≡ true =
        unfold on_event in λ e s. refl in
      let d = polls-Complete on_event total before commits [] silent k in
      let all = d.replayed ∙ replay-handle_all d.handled silent in
      let pages = handle_all-pages channel d.handled silent hw hd in
      record {
        handled = d.handled;
        logged = ap (λ (t : Sinks). t.log) all ∙ pages.0;
        posted = ap (λ (t : Sinks). t.posted) all ∙ pages.1;
        at_least_once = d.at_least_once;
        from_log = d.from_log;
        exactly = d.exactly;
      }
