-- ===== src/Examples/Messages.antt =====
-- The theorems on the bus, the console and the gateway at concrete values.
use aegis_project.Prelude.{
  ℕ, zero, suc, ◌+◌, ◌-◌, ◌≤◌, ◌<◌, ◌≡◌, refl, arith, true, false, String, str_eq, eq_iff, Bool,
  not, All, none, some, List, [], ◌∷◌, map, length, any,
}
use aegis_project.Schemas.{SignalKind, Severity, Signal}
use aegis_project.Dedup.{Redis}
use aegis_project.Http.{ok}
use aegis_project.Bus.{
  Consumer, Handler, Event, poll, handle_next, append_record, restart, step, run,
}
use aegis_project.Bus.Laws.{failed_record_lost}
use aegis_project.Bus.Delivery.{Commits, Delivers, at_start, run-Delivers}
use aegis_project.Json.{Json, end}
use aegis_project.Events.{IncidentEvent, IncidentEventType, plain_event}
use aegis_project.Notification.{Channel}
use aegis_project.Notification.Delivery.{on_event, silent, Paged, delivered_pages}
use aegis_project.Bus.CaughtUp.{polls}
use aegis_project.Ingestion.{Gateway, State, published_of, ingest, ingest_signals}
use aegis_project.Ingestion.Laws.{
  SetNx, first_of_each, refused_then_duplicate, ingest_signals_exact,
}

-- A handler that counts.
abbrev counts : Handler ℕ ℕ
counts r s = (true, s + r)

-- The process ends between the handler of the first record and its commit.
abbrev events : List (Event ℕ)
events =
    Event.published 4
    ∷ Event.published 5
    ∷ Event.polled false
    ∷ Event.restarted
    ∷ Event.polled true
    ∷ []

run-Delivers_example : Delivers counts (All Commits events) 0 (run counts events (at_start [], 0))
run-Delivers_example = run-Delivers counts (λ r s. refl) events [] 0

-- The first record was counted twice.
counted_twice : (run counts events (at_start [], 0)).1 ≡ 8
unfolding run step poll handle_next restart append_record
counted_twice = refl

-- A handler that raises on 0.
abbrev picky : Handler ℕ ℕ
picky zero s = (false, s)
picky (suc n) s = (true, s + suc n)

abbrev two_records : Consumer ℕ
two_records = record { log = 0 ∷ 3 ∷ []; position = 0; committed = 0 }

failed_record_lost_example :
    ((restart (poll picky false (two_records, 7)).0).position ≤ 0)
    × ((es : List (Event ℕ))
        → 0 < (run picky es (poll picky true (poll picky false (two_records, 7)))).0.position)
failed_record_lost_example =
    failed_record_lost picky false two_records 7 7 10 0 3 (omega arith) refl refl refl refl

-- Client 2 is gone.
abbrev sends : ℕ → Json → Bool
sends (suc (suc zero)) m = false
sends _ m = true

-- A Redis whose keys are a list.
abbrev holds : String → List String → Bool
holds k keys = any (str_eq k) keys

abbrev set_key : String → ℕ → List String → Bool × List String
set_key k ttl keys = (not (holds k keys), k ∷ keys)

abbrev list_redis : Redis
list_redis = record { Keys = List String; set_nx_ex = set_key }

abbrev list_redis_laws : SetNx list_redis
list_redis_laws = record {
  present = holds;
  was_set = λ k ttl keys. refl;
  is_present = λ k ttl keys. rw ((eq_iff k k).1 refl) refl;
  others_kept = λ j k ttl keys e. rw e refl;
}

abbrev gateway_with : Bool → Gateway
gateway_with takes = record {
  redis = list_redis;
  sha256 = λ s. s;
  dedup_window_seconds = 60;
  takes = λ topic p. takes;
  trace_id = none;
  ingest_token = "secret";
}

abbrev signal : Signal
signal = record {
  signal_id = 21;
  kind = SignalKind.alert;
  source = "prometheus";
  service = "payments";
  title = "latency";
  description = "";
  severity = Severity.sev1;
  labels = [];
  value = none;
  observed_at = 25;
  received_at = 26;
}

abbrev broken : Gateway
broken = gateway_with false

abbrev idle : State broken
idle = record { keys = []; topic = [] }

refused_then_duplicate_example :
    let (answer, s') = ingest broken signal idle in
    let (again, s'') = ingest broken signal s' in
    (answer ≡ none) × (s'.topic ≡ []) × (again ≡ some false) × (s''.topic ≡ [])
refused_then_duplicate_example = refused_then_duplicate broken list_redis_laws signal idle refl refl

abbrev working : Gateway
working = gateway_with true

abbrev ready : State working
ready = record { keys = []; topic = [] }

ingest_signals_exact_example :
    let fresh = first_of_each working (λ k. false) (signal ∷ signal ∷ []) in
    let (answer, s') = ingest_signals working "secret" (signal ∷ signal ∷ []) ready in
    (answer ≡ ok (record { accepted = length fresh; deduplicated = 2 - length fresh }))
    × (s'.topic ≡ map (published_of working) fresh)
    × (length fresh ≤ 2)
ingest_signals_exact_example =
    ingest_signals_exact working list_redis_laws (signal ∷ signal ∷ []) ready (λ topic p. refl)

abbrev channel : Channel
channel = record {
  webhook = "http://hook";
  console_base = "http://console";
  uuid_text = λ n. "id";
  show = λ v. "value";
  delivers = λ text. true;
}

-- An event is handled and its commit fails before a restart, and two more are published after it.
abbrev before : List (Event (IncidentEvent ℕ))
before =
    Event.published (plain_event 3 IncidentEventType.opened end)
    ∷ Event.polled false
    ∷ Event.restarted
    ∷ Event.published (plain_event 3 IncidentEventType.updated end)
    ∷ Event.published (plain_event 3 IncidentEventType.resolved end)
    ∷ []

abbrev three_commits : List Bool
three_commits = true ∷ false ∷ true ∷ []

few_left :
    let p = run (on_event channel) before (at_start [], silent) in length p.0.log ≤ p.0.position + 3
unfolding run step poll handle_next restart append_record on_event
few_left = omega arith

delivered_pages_example :
    let p = run (on_event channel) before (at_start [], silent) in
    Paged channel
      (All Commits before × All (λ b. b ≡ true) three_commits)
      p.0.log
      (run (on_event channel) (polls three_commits) p).1
delivered_pages_example = delivered_pages channel before three_commits refl (λ text. refl) few_left
