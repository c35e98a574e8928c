-- ===== src/Notification.antt =====
-- src/aegis_services/notification/worker.py: which events reach the webhook.
pub mod Laws
pub mod Delivery
use aegis_project.Prelude.{
  ℕ, ◌+◌, String, Bool, true, false, not, ◌&&◌, List, [], ◌∷◌, ◌++◌, str_eq, if◌then◌else◌,
}
use aegis_project.Json.{Json, Fields, get_or}
use aegis_project.Schemas.{◌⧺◌}
use aegis_project.Events.{IncidentEvent, IncidentEventType}

-- `IncidentEventType.value`
abbrev pub event_value : IncidentEventType → String
event_value IncidentEventType.opened = "opened"
event_value IncidentEventType.updated = "updated"
event_value IncidentEventType.investigating = "investigating"
event_value IncidentEventType.plan_proposed = "plan_proposed"
event_value IncidentEventType.approved = "approved"
event_value IncidentEventType.executing = "executing"
event_value IncidentEventType.verifying = "verifying"
event_value IncidentEventType.resolved = "resolved"
event_value IncidentEventType.escalated = "escalated"

-- `event.event_type in PAGING_EVENTS`
abbrev pub is_paging : IncidentEventType → Bool
is_paging IncidentEventType.opened = true
is_paging IncidentEventType.escalated = true
is_paging IncidentEventType.resolved = true
is_paging IncidentEventType.plan_proposed = true
is_paging _ = false

-- A line of the log that every event gets, and the texts posted to the webhook.
pub record LogLine : Type 0 where
  pub incident_id : ℕ
  pub event : String
  pub paging : Bool
  pub link : String
  pub payload : Fields

pub record Sinks : Type 0 where
  pub log : List LogLine
  pub posted : List String
  pub failures : ℕ

-- The settings, and the texts of UUIDs and values; `delivers` is false where the post raises an
-- `httpx.HTTPError`.
pub record Channel : Type 0 where
  pub webhook : String
  pub console_base : String
  pub uuid_text : ℕ → String
  pub show : Json → String
  pub delivers : String → Bool

module _ (channel : Channel) where
  unfoldable pub link_of : ℕ → String
  link_of incident_id = channel.console_base ⧺ "/incidents/" ⧺ channel.uuid_text incident_id

  -- The text that is posted.
  unfoldable pub page_text : {D : Type 0} → IncidentEvent D → String
  unfolding link_of get_or
  page_text e =
      ":rotating_light: Incident "
      ⧺ event_value e.event_type
      ⧺ " ["
      ⧺ channel.show (get_or "severity" (Json.text "n/a") e.payload)
      ⧺ "] "
      ⧺ channel.show (get_or "title" (Json.text "") e.payload)
      ⧺ " — "
      ⧺ link_of e.incident_id

  unfoldable pub log_line : {D : Type 0} → IncidentEvent D → LogLine
  unfolding link_of
  log_line e = record {
    incident_id = e.incident_id;
    event = event_value e.event_type;
    paging = is_paging e.event_type;
    link = link_of e.incident_id;
    payload = e.payload;
  }

  -- The post to the webhook; a failure is logged.
  unfoldable pub post : String → Sinks → Sinks
  post text s =
      if channel.delivers text
      then record s { posted = s.posted ++ text ∷ [] }
      else record s { failures = s.failures + 1 }

  -- `handle`
  unfoldable pub handle : {D : Type 0} → IncidentEvent D → Sinks → Sinks
  unfolding page_text log_line post
  handle e s =
      let logged : Sinks = record s { log = s.log ++ log_line e ∷ [] } in
      if is_paging e.event_type && not (str_eq channel.webhook "")
      then post (page_text e) logged
      else logged
