-- ===== src/Events.antt =====
-- src/aegis_common/events.py: the topics and the events on the bus.
use aegis_project.Prelude.{ℕ, String, Option, none}
use aegis_project.Json.{Fields}
use aegis_project.Schemas.{Signal, fingerprint}

pub data Topic : Type 0 where
  signals_raw signals_normalized incidents_lifecycle actions_requested actions_result
        knowledge_ingest notifications_outbound :
      Topic

pub data IncidentEventType : Type 0 where
  opened updated investigating plan_proposed approved executing verifying resolved escalated :
      IncidentEventType

pub record SignalEvent : Type 0 where
  pub signal : Signal
  pub idempotency_key : String
  pub trace_id : Option String

-- `SignalEvent.of`
unfoldable pub signal_event : (String → String) → Signal → Option String → SignalEvent
unfolding fingerprint
signal_event sha256 signal trace_id = record {
  signal = signal;
  idempotency_key = fingerprint sha256 signal;
  trace_id = trace_id;
}

-- `data` without its `signature`, which stands beside it as a digest.
pub record IncidentEvent (Digest : Type 0) : Type 0 where
  pub incident_id : ℕ
  pub event_type : IncidentEventType
  pub fencing_token : Option ℕ
  pub trace_id : Option String
  pub payload : Fields
  pub signature : Option Digest

-- An event of a type on an incident that carries only its data.
abbrev pub plain_event : {D : Type 0} → ℕ → IncidentEventType → Fields → IncidentEvent D
plain_event incident_id event_type payload = record {
  incident_id = incident_id;
  event_type = event_type;
  fencing_token = none;
  trace_id = none;
  payload = payload;
  signature = none;
}
