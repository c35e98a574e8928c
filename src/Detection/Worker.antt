-- ===== src/Detection/Worker.antt =====
-- src/aegis_services/detection/worker.py: the handler of a signal. Between the reads of one
-- session other sessions may commit: `others` is what they do to the database.
use aegis_project.Prelude.{
  ℕ, ◌+◌, String, Bool, true, false, not, Option, none, some, List, [], ◌∷◌, ◌++◌, map, leb, keep,
  take, sort_by, if◌then◌else◌,
}
use aegis_project.Prelude.Int.{pos}
use aegis_project.Json.{Json, Fields, end, field, nil, cons}
use aegis_project.Schemas.{
  Severity, Signal, SignalKind, IncidentStatus, severity_value, fingerprint, ◌⧺◌,
}
use aegis_project.Events.{SignalEvent, IncidentEvent, IncidentEventType}
use aegis_project.Audit.{append_audit}
use aegis_project.Store.{Env, Db, IncidentRow, SignalRow}
use aegis_project.Store.Lookup.{get_row, update_row}
use aegis_project.Detection.Topology.{Adjacency, member}
use aegis_project.Detection.Correlation.{
  more_severe, OpenIncidentView, CorrelationDecision, correlate,
}

abbrev coerced : SignalKind → Severity → Severity
coerced SignalKind.alert Severity.unknown = Severity.sev3
coerced _ severity = severity

-- `normalize`
unfoldable pub normalize : ℕ → Signal → Signal
normalize now s = record s { received_at = now; severity = coerced s.kind s.severity }

abbrev pub is_resolved : IncidentStatus → Bool
is_resolved IncidentStatus.resolved = true
is_resolved _ = false

abbrev view_of : IncidentRow → OpenIncidentView
view_of r = record {
  incident_id = r.id;
  services = r.services;
  severity = r.severity;
  last_updated = r.updated_at;
}

-- `_load_open_incident_views`
unfoldable pub load_views : List IncidentRow → List OpenIncidentView
load_views rows = map view_of (
    take 200 (
      sort_by (λ (a b : IncidentRow). leb b.updated_at a.updated_at)
        (keep (λ (r : IncidentRow). not (is_resolved r.status)) rows)))

-- `persist_signal`: the row
unfoldable pub signal_row : (String → String) → Signal → ℕ → SignalRow
unfolding fingerprint
signal_row sha256 s incident_id = record {
  id = s.signal_id;
  incident_id = some incident_id;
  kind = s.kind;
  source = s.source;
  service = s.service;
  title = s.title;
  description = s.description;
  severity = s.severity;
  labels = s.labels;
  value = s.value;
  fingerprint = fingerprint sha256 s;
  observed_at = s.observed_at;
}

abbrev pub is_none {ℓ} : {A : Type ℓ} → Option A → Bool
is_none none = true
is_none (some _) = false

-- `Severity.value.upper()`
abbrev upper_severity : Severity → String
upper_severity Severity.sev1 = "SEV1"
upper_severity Severity.sev2 = "SEV2"
upper_severity Severity.sev3 = "SEV3"
upper_severity Severity.sev4 = "SEV4"
upper_severity Severity.unknown = "UNKNOWN"

-- The row of an incident that a signal joins.
unfoldable pub joined : ℕ → Signal → IncidentRow → IncidentRow
unfolding more_severe
joined now signal r = record r {
  services =
      if member signal.service r.services then r.services else r.services ++ signal.service ∷ [];
  severity = more_severe r.severity signal.severity;
  version = r.version + 1;
  status = IncidentStatus.investigating;
  updated_at = now;
}

-- The row of a new incident.
unfoldable pub opened : ℕ → ℕ → ℕ → Severity → Signal → IncidentRow
opened now new_id token severity signal = record {
  id = new_id;
  status = IncidentStatus.open_status;
  severity = severity;
  title = upper_severity signal.severity ⧺ ": " ⧺ signal.title ⧺ " on " ⧺ signal.service;
  services = signal.service ∷ [];
  fencing_token = some token;
  version = 0;
  opened_at = now;
  updated_at = now;
  resolved_at = none;
}

-- How the end of the session goes: the event is published inside the session, which then commits.
-- Where the publish raises, the session is rolled back; where the commit raises, it is too, but the
-- event is out.
pub data Ending : Type 0 where
  completed unpublished uncommitted : Ending

-- The tables, the fencing sequence (which no rollback rewinds), the bus, and how the session that
-- comes next ends.
pub record State (env : Env) : Type 0 where
  pub db : Db env
  pub last_token : ℕ
  pub bus : List (IncidentEvent env.crypto.Digest)
  pub ending : Ending

pub data Handled : Type 0 where
  returned raised : Handled

module _ (env : Env) where
  -- The signal's row and the audit record, which flushes it: a signal that the table has already
  -- violates the primary key there, outside the handler's `try`, so the session is rolled back
  -- and the handler raises. `rows` are the rows that the session wrote before.
  unfoldable pub persist : Signal → ℕ → String → Fields → Option String → Db env → Option (Db env)
  unfolding signal_row
  persist signal incident_id action payload trace_id db =
      if is_none (get_row (λ (r : SignalRow). r.id) signal.signal_id db.signals)
      then some (record db {
        signals = db.signals ++ signal_row env.sha256_text signal incident_id ∷ [];
        audit =
            append_audit env.hasher
              (record {
                actor = "detection";
                action = action;
                payload = payload;
                incident_id = some incident_id;
                trace_id = trace_id;
              })
              db.audit;
      })
      else none

  abbrev pub end_session :
      Ending → Db env → IncidentEvent env.crypto.Digest → State env → Handled × State env
  end_session Ending.completed db e s = (returned, record s { db = db; bus = s.bus ++ e ∷ [] })
  end_session Ending.unpublished db e s = (raised, s)
  end_session Ending.uncommitted db e s = (raised, record s { bus = s.bus ++ e ∷ [] })

  abbrev publish_if :
      Option (Db env) → IncidentEvent env.crypto.Digest → State env → Handled × State env
  publish_if none e s = (raised, s)
  publish_if (some db) e s = end_session s.ending db e s

  -- The branch ATTACH, on the incident that was read under its lock.
  unfoldable pub attach_signal :
      ℕ → SignalEvent → Signal → IncidentRow → State env → Handled × State env
  unfolding persist joined
  attach_signal now event signal r s =
      let row = joined now signal r in
      publish_if
        (persist signal r.id "incident.signal_attached"
          (field "signal_id" (Json.uuid signal.signal_id)
            (field "service" (Json.text signal.service) end))
          event.trace_id
          (record s.db {
            incidents =
                update_row (λ (i : IncidentRow). i.id) r.id (joined now signal) s.db.incidents;
          }))
        (record {
          incident_id = r.id;
          event_type = IncidentEventType.updated;
          fencing_token = r.fencing_token;
          trace_id = event.trace_id;
          payload =
              field "added_service" (Json.text signal.service)
                (field "severity" (Json.text (severity_value row.severity)) end);
          signature = none;
        })
        s

  -- The branch OPEN_NEW: the token is drawn first, and stays drawn.
  unfoldable pub open_incident :
      ℕ → ℕ → SignalEvent → Signal → Severity → State env → Handled × State env
  unfolding persist opened
  open_incident now new_id event signal severity s =
      let token = s.last_token + 1 in
      let row = opened now new_id token severity signal in
      publish_if
        (persist signal new_id "incident.opened"
          (field "service" (Json.text signal.service) (
            field "severity" (Json.text (severity_value severity))
              (field "fencing_token" (Json.int (pos token)) end)))
          event.trace_id (record s.db { incidents = s.db.incidents ++ row ∷ [] }))
        (record {
          incident_id = new_id;
          event_type = IncidentEventType.opened;
          fencing_token = some token;
          trace_id = event.trace_id;
          payload = field "title" (Json.text row.title) (
              field "severity" (Json.text (severity_value severity))
                (field "services" (Json.arr (cons (Json.text signal.service) nil)) end));
          signature = none;
        })
        (record s { last_token = token })

  -- The branches on the decision; an incident that is gone makes it OPEN_NEW.
  unfoldable pub act_on :
      ℕ → ℕ → SignalEvent → Signal → CorrelationDecision → State env → Handled × State env
  unfolding attach_signal open_incident
  act_on now new_id event signal (CorrelationDecision.attach id severity) s =
      elim (get_row (λ (r : IncidentRow). r.id) id s.db.incidents) [
        | some r ↦ attach_signal now event signal r s
        | none ↦ open_incident now new_id event signal signal.severity s
      ]
  act_on now new_id event signal (CorrelationDecision.open_new severity) s =
      open_incident now new_id event signal severity s

  -- `handle_signal`: the reading of the clock, the id of a new incident, and the other sessions
  unfoldable pub handle_signal :
      Adjacency → ℕ → ℕ → ℕ → (Db env → Db env) → SignalEvent → State env → Handled × State env
  unfolding act_on
  handle_signal topology window_seconds now new_id others event s =
      let signal = normalize now event.signal in
      let decision = correlate signal (load_views s.db.incidents) topology now window_seconds in
      act_on now new_id event signal decision (record s { db = others s.db })
