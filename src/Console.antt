-- ===== src/Console.antt =====
-- src/aegis_services/console_api/app.py: the connected clients, the read path and the proxy for
-- decisions. Connections are numbered.
pub mod Laws
pub mod Live
use aegis_project.Prelude.{
  ℕ, String, Bool, true, false, not, ◌||◌, Option, none, some, List, [], ◌∷◌, ◌++◌, map, keep, any,
  ◌==◌, if◌then◌else◌,
}
use aegis_project.Http.{Response, ok, http, server_error}
use aegis_project.Json.{Json}
use aegis_project.Schemas.{kind_value, severity_value, status_value}
use aegis_project.Store.{Env, Db, IncidentRow, SignalRow, PlanStatus}
use aegis_project.Repository.{get_incident, list_incidents}
use aegis_project.Pdp.Decide.{Outcome, decide}
use aegis_project.Pdp.Queries.{PlanOut, pending_plans as plans_awaiting}

-- The clients, and what was sent to whom, in order.
pub record Broadcaster : Type 0 where
  pub clients : List ℕ
  pub delivered : List (ℕ × Json)

-- `set.discard`
abbrev pub discard : ℕ → List ℕ → List ℕ
discard ws clients = keep (λ c. not (c == ws)) clients

-- `register`, after `accept`
unfoldable pub register : ℕ → Broadcaster → Broadcaster
register ws b = record b {
  clients = if any (λ c. c == ws) b.clients then b.clients else ws ∷ b.clients;
}

-- `unregister`
unfoldable pub unregister : ℕ → Broadcaster → Broadcaster
unregister ws b = record b { clients = discard ws b.clients }

unfoldable pub discard_all : List ℕ → List ℕ → List ℕ
discard_all [] clients = clients
discard_all (ws ∷ dead) clients = discard_all dead (discard ws clients)

module _ (sends : ℕ → Json → Bool) (message : Json) where
  -- The loop over the clients: what it delivers, and the clients for which `send_json` raises.
  unfoldable pub send_all : List ℕ → List (ℕ × Json) → List (ℕ × Json) × List ℕ
  send_all [] delivered = (delivered, [])
  send_all (ws ∷ clients) delivered = elim (sends ws message) [
    | true ↦ send_all clients (delivered ++ (ws, message) ∷ [])
    | false ↦ let (all_delivered, dead) = send_all clients delivered in (all_delivered, ws ∷ dead)
  ]

  -- `broadcast`
  unfoldable pub broadcast : Broadcaster → Broadcaster
  unfolding send_all discard_all
  broadcast b =
      let (delivered, dead) = send_all b.clients b.delivered in
      record { clients = discard_all dead b.clients; delivered = delivered }

pub record SignalOut : Type 0 where
  pub signal_id : ℕ
  pub kind : String
  pub service : String
  pub title : String
  pub severity : String

unfoldable pub signal_out : SignalRow → SignalOut
signal_out r = record {
  signal_id = r.id;
  kind = kind_value r.kind;
  service = r.service;
  title = r.title;
  severity = severity_value r.severity;
}

pub record IncidentOut : Type 0 where
  pub incident_id : ℕ
  pub status : String
  pub severity : String
  pub title : String
  pub services : List String
  pub version : ℕ

unfoldable pub incident_out : IncidentRow → IncidentOut
incident_out r = record {
  incident_id = r.id;
  status = status_value r.status;
  severity = severity_value r.severity;
  title = r.title;
  services = r.services;
  version = r.version;
}

pub record IncidentDetail : Type 0 where
  pub incident : IncidentOut
  pub signals : List SignalOut

unfoldable pub get_incidents : Option String → ℕ → List IncidentRow → List IncidentOut
unfolding list_incidents incident_out
get_incidents status limit rows = map incident_out (list_incidents status limit rows)

abbrev pub belongs_to : ℕ → SignalRow → Bool
belongs_to incident_id s = elim s.incident_id [ none ↦ false | some i ↦ i == incident_id ]

unfoldable pub get_one : ℕ → List IncidentRow → List SignalRow → Response IncidentDetail
unfolding get_incident incident_out signal_out
get_one incident_id incidents signals = elim (get_incident incident_id incidents) [
  | none ↦ http 404
  | some r ↦ ok (record {
    incident = incident_out r;
    signals = map signal_out (keep (belongs_to incident_id) signals);
  })
]

-- The answer of the decision point as the proxy passes it on: an internal error is a response of
-- status 500.
abbrev pub pass_on : {A : Type 0} → Response A → Response A
pass_on (ok v) = ok v
pass_on (http n) = http n
pass_on server_error = http 500

-- `plan_decision`; the call itself raises where the decision point is not reached.
unfoldable pub plan_decision : (env : Env) → Bool → ℕ → String → String → Db env → Outcome env
unfolding decide
plan_decision env false plan_id decision approver db = (server_error, db, [])
plan_decision env true plan_id decision approver db =
    let (answer, db', events) = decide env plan_id decision approver db in
    (pass_on answer, db', events)

-- The list is passed on when the decision point gives it; its error is not JSON, and no list.
abbrev pub read_through : {A : Type 0} → Response A → Response A
read_through (ok v) = ok v
read_through _ = server_error

-- `pending_plans`; the call itself raises where the decision point is not reached.
unfoldable pub pending_plans : (env : Env) → String → Bool → Db env → Response (List PlanOut)
unfolding plans_awaiting
pending_plans env environment true db = read_through (plans_awaiting env environment db)
pending_plans env environment false db = server_error
