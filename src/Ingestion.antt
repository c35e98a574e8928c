-- ===== src/Ingestion.antt =====
-- src/aegis_services/ingestion_gateway/app.py: signals are checked for duplicates and published.
-- Redis, the broker and the ingest token are arguments.
pub mod Laws
pub mod Webhook
use aegis_project.Prelude.{
  ℕ, zero, suc, ◌+◌, ◌-◌, String, Bool, true, false, Option, none, some, List, [], ◌∷◌, ◌++◌, map,
  keep, length, str_eq, if◌then◌else◌,
}
use aegis_project.Schemas.{Severity, SignalKind, Signal, Labels, fingerprint}
use aegis_project.Events.{SignalEvent, signal_event}
use aegis_project.Dedup.{Redis, dedup_seen}
use aegis_project.Http.{Response, ok, http, server_error}

-- A record of the topic `signals.raw`.
pub record Published : Type 0 where
  pub key : String
  pub value : SignalEvent

-- What the service calls: SHA-256, the deduplication window, whether the broker takes a record
-- (`send_and_wait` raises if not), and the trace of the request.
pub record Gateway : Type 1 where
  pub redis : Redis
  pub sha256 : String → String
  pub dedup_window_seconds : ℕ
  pub takes : List Published → Published → Bool
  pub trace_id : Option String
  pub ingest_token : String

pub record State (gateway : Gateway) : Type 0 where
  pub keys : gateway.redis.Keys
  pub topic : List Published

pub record IngestResult : Type 0 where
  pub accepted : ℕ
  pub deduplicated : ℕ

module _ (gateway : Gateway) where
  -- `_bus.publish`; false where it raises.
  unfoldable pub publish : Published → State gateway → Bool × State gateway
  publish p s =
      if gateway.takes s.topic p then (true, record s { topic = s.topic ++ p ∷ [] }) else (false, s)

  unfoldable pub published_of : Signal → Published
  unfolding signal_event
  published_of signal = record {
    key = signal.service;
    value = signal_event gateway.sha256 signal gateway.trace_id;
  }

  abbrev pub after_publish : Bool × State gateway → Option Bool × State gateway
  after_publish (true, s) = (some true, s)
  after_publish (false, s) = (none, s)

  -- `_ingest`; `none` where it raises.
  unfoldable pub ingest : Signal → State gateway → Option Bool × State gateway
  unfolding fingerprint dedup_seen publish published_of
  ingest signal s =
      let (seen, keys) =
        dedup_seen gateway.redis (fingerprint gateway.sha256 signal) gateway.dedup_window_seconds
          s.keys in
      let s' : State gateway = record s { keys = keys } in
      if seen then (some false, s') else after_publish (publish (published_of signal) s')

  -- The loop over the signals of a request, with the number accepted so far.
  unfoldable pub ingest_all : ℕ → List Signal → State gateway → Option ℕ × State gateway
  unfolding ingest
  ingest_all accepted [] s = (some accepted, s)
  ingest_all accepted (signal ∷ signals) s =
      let (answer, s') = ingest signal s in
      elim answer [
        | none ↦ (none, s')
        | some true ↦ ingest_all (accepted + 1) signals s'
        | some false ↦ ingest_all accepted signals s'
      ]

  abbrev pub respond : ℕ → Option ℕ × State gateway → Response IngestResult × State gateway
  respond received (none, s) = (server_error, s)
  respond received (some accepted, s) =
      (ok (record { accepted = accepted; deduplicated = received - accepted }), s)

  -- `require_token` in front of a handler.
  unfoldable pub require_token :
      {R : Type 0}
      → String
      → Response R × State gateway
      → State gateway
      → Response R × State gateway
  require_token token answer s = if str_eq token gateway.ingest_token then answer else (http 401, s)

  -- `ingest_signals`
  unfoldable pub ingest_signals :
      String → List Signal → State gateway → Response IngestResult × State gateway
  unfolding ingest_all require_token
  ingest_signals token signals s =
      require_token token (respond (length signals) (ingest_all 0 signals s)) s

-- `AMAlert`
pub record Alert : Type 0 where
  pub status : String
  pub labels : Labels
  pub annotations : Labels

-- `d.get(k)` on a dictionary of texts
unfoldable pub label : String → Labels → Option String
label k [] = none
label k ((j, v) ∷ d) = if str_eq j k then some v else label k d

abbrev pub label_or : String → Option String → String
label_or default none = default
label_or default (some v) = v

-- `a or rest`
abbrev pub or_text : Option String → String → String
or_text none rest = rest
or_text (some v) rest = if str_eq v "" then rest else v

-- `_SEVERITY_MAP.get(name, Severity.UNKNOWN)`
unfoldable pub severity_of : String → Severity
severity_of name =
    if str_eq name "critical"
    then Severity.sev1
    else (if str_eq name "warning"
        then Severity.sev2
        else (if str_eq name "info" then Severity.sev4 else Severity.unknown))

-- The identity and the times that the defaults of `Signal` give.
pub record Stamp : Type 0 where
  pub signal_id : ℕ
  pub observed_at : ℕ
  pub received_at : ℕ

-- The signal of an alert.
unfoldable pub to_signal : Alert → Stamp → Signal
unfolding label severity_of
to_signal alert stamp = record {
  signal_id = stamp.signal_id;
  kind = SignalKind.alert;
  source = "alertmanager";
  service = or_text (label "service" alert.labels) (or_text (label "job" alert.labels) "unknown");
  title = label_or "alert" (label "alertname" alert.labels);
  description = label_or "" (label "description" alert.annotations);
  severity = severity_of (label_or "" (label "severity" alert.labels));
  labels = alert.labels;
  value = none;
  observed_at = stamp.observed_at;
  received_at = stamp.received_at;
}

abbrev pub is_firing : Alert → Bool
is_firing alert = str_eq alert.status "firing"

module _ (gateway : Gateway) (stamps : ℕ → Stamp) where
  -- The loop over the firing alerts; the alert at an index gets the stamp of that index.
  unfoldable pub ingest_alerts : ℕ → ℕ → List Alert → State gateway → Option ℕ × State gateway
  unfolding ingest to_signal
  ingest_alerts i accepted [] s = (some accepted, s)
  ingest_alerts i accepted (alert ∷ alerts) s =
      let (answer, s') = ingest gateway (to_signal alert (stamps i)) s in
      elim answer [
        | none ↦ (none, s')
        | some true ↦ ingest_alerts (i + 1) (accepted + 1) alerts s'
        | some false ↦ ingest_alerts (i + 1) accepted alerts s'
      ]

  -- `ingest_alertmanager`
  unfoldable pub ingest_alertmanager :
      String → List Alert → State gateway → Response IngestResult × State gateway
  unfolding ingest_alerts require_token
  ingest_alertmanager token alerts s =
      let firing = keep is_firing alerts in
      require_token gateway token (respond gateway (length firing) (ingest_alerts 0 0 firing s)) s
