-- ===== src/Examples/Incidents.antt =====
-- The theorems on detection, on policies and on the gate of the workflow at concrete values.
use mathlib.Core.List.{Memᴰ}
use aegis_project.Prelude.{
  ◌+◌, ◌≤◌, ◌≢◌, ◌≡◌, ◌<◌, ◌↔◌, ◌⊎◌, String, refl, true, false, some, none, List, [], ◌∷◌, ◌++◌,
  All,
}
use aegis_project.Prelude.Int.{pos, ltb_ℤ}
use aegis_project.Json.{Json, get}
use aegis_project.Schemas.{Severity, SignalKind, Signal, IncidentStatus, severity_value}
use aegis_project.Events.{SignalEvent, IncidentEvent, IncidentEventType}
use aegis_project.Store.{SignalRow}
use aegis_project.Store.Lookup.{get_row}
use aegis_project.Policy.{PolicyMode, StepContext, plan_requires_human}
use aegis_project.Policy.Laws.{IsAutomatic, plan_requires_human_exact}
use aegis_project.Reliability.Budget.{new_budget, start}
use aegis_project.Reliability.Breaker.{new_breaker}
use aegis_project.Orchestrator.Agents.{Context}
use aegis_project.Examples.Flow.{deps}
use aegis_project.Detection.Topology.{topology, member}
use aegis_project.Detection.Correlation.{
  sev_rank, more_severe, OpenIncidentView, CorrelationDecision, eligible, correlate,
}
use aegis_project.Detection.Choice.{correlate_choice}
use aegis_project.Detection.Worker.{State, Ending, returned, joined, signal_row, attach_signal}
use aegis_project.Detection.Laws.{signal_id_of, incident_id_of, attach_effects}
use aegis_project.Orchestrator.State.{IncidentState, initial_state, Decided}
use aegis_project.Orchestrator.Graph.{gate_node, confidence_floor, or_zero}
use aegis_project.Orchestrator.Gates.{IsCleared, gate_node_exact}
use aegis_project.Examples.Fixtures.{env, db, incident}

abbrev edges : List (String × List String)
edges = ("checkout", "payments" ∷ "catalog" ∷ []) ∷ []

abbrev signal : Signal
signal = record {
  signal_id = 21;
  kind = SignalKind.alert;
  source = "prometheus";
  service = "payments";
  title = "latency";
  description = "";
  severity = Severity.sev1;
  labels = [];
  value = none;
  observed_at = 25;
  received_at = 26;
}

abbrev event : SignalEvent
event = record { signal = signal; idempotency_key = "k"; trace_id = none }

abbrev view : OpenIncidentView
view = record {
  incident_id = 3;
  services = "checkout" ∷ [];
  severity = Severity.sev2;
  last_updated = 20;
}

correlate_choice_example :
    let test = eligible signal (topology edges) 30 600 in
    ((v : OpenIncidentView) × Memᴰ v (view ∷ [])
      × (test v ≡ true)
      × All (λ w. test w ≡ true → w.last_updated ≤ v.last_updated) (view ∷ [])
      × (correlate signal (view ∷ []) (topology edges) 30 600
          ≡ CorrelationDecision.attach v.incident_id (more_severe v.severity signal.severity)))
    ⊎ (All (λ w. test w ≡ false) (view ∷ [])
        × (correlate signal (view ∷ []) (topology edges) 30 600
            ≡ CorrelationDecision.open_new signal.severity))
correlate_choice_example = correlate_choice signal (view ∷ []) (topology edges) 30 600

-- A database without the signal, and one that has it.
abbrev before : State env
before = record { db = db; last_token = 5; bus = []; ending = Ending.completed }

abbrev row : SignalRow
row = signal_row env.sha256_text signal 3

abbrev after : State env
after = record {
  db = record db { signals = row ∷ [] };
  last_token = 5;
  bus = [];
  ending = Ending.completed;
}

signal_new : get_row signal_id_of 21 before.db.signals ≡ none
unfolding get_row
signal_new = refl

incident_known : get_row incident_id_of 3 before.db.incidents ≡ some incident
unfolding get_row
incident_known = refl

attach_effects_example :
    let (h, t) = attach_signal env 30 event signal incident before in
    let r' = joined 30 signal incident in
    (h ≡ returned)
    × (t.db.signals ≡ before.db.signals ++ signal_row env.sha256_text signal incident.id ∷ [])
    × ((e : IncidentEvent env.crypto.Digest) × (t.bus ≡ before.bus ++ e ∷ [])
        × (e.incident_id ≡ incident.id)
        × (e.event_type ≡ IncidentEventType.updated)
        × (e.fencing_token ≡ incident.fencing_token)
        × (e.trace_id ≡ event.trace_id)
        × (get "severity" e.payload ≡ some (Json.text (severity_value r'.severity))))
    × (get_row incident_id_of incident.id t.db.incidents ≡ some r')
    × (r'.status ≡ IncidentStatus.investigating)
    × (r'.version ≡ incident.version + 1)
    × (member signal.service r'.services ≡ true)
    × ((v : String) → member v incident.services ≡ true → member v r'.services ≡ true)
    × (sev_rank r'.severity ≤ sev_rank incident.severity)
    × (sev_rank r'.severity ≤ sev_rank signal.severity)
attach_effects_example =
    attach_effects env 30 event signal incident before signal_new incident_known refl

abbrev low_step : StepContext
low_step = record { risk_tier = "low"; catalog_requires_approval = false; autonomy_allowed = true }

plan_requires_human_exact_example :
    (plan_requires_human PolicyMode.auto_low (low_step ∷ []) ≡ false)
    ↔ All (IsAutomatic PolicyMode.auto_low) (low_step ∷ [])
plan_requires_human_exact_example = plan_requires_human_exact PolicyMode.auto_low (low_step ∷ [])

abbrev confident : IncidentState
confident = record (initial_state 3 (some 5) "checkout errors" [] Json.null) {
  confidence = some (pos 800000);
  has_precedent = some true;
}

abbrev with_budget : Context
with_budget = record {
  breaker = new_breaker 4 20;
  rag_breaker = new_breaker 4 20;
  budget = start 0 (new_budget 6 300 1000);
  reads = 0;
}

gate_node_exact_example :
    let now = deps.clock with_budget.reads in
    let b = with_budget.budget in
    (t : IncidentState) × ((gate_node deps confident with_budget).0 ≡ some t)
    × ((t.decision ≡ some Decided.recommend) ↔ (
        ((b.iterations < b.max_iterations)
          × (b.tokens < b.max_tokens)
          × (b.started ≡ true → now < b.start_time + b.wallclock))
        × (ltb_ℤ (or_zero confident.confidence) confidence_floor ≡ false)))
    × (t.decision ≡ some Decided.recommend → IsCleared t)
    × (t.decision ≢ some Decided.recommend
        → (t.decision ≡ some Decided.escalate) × (t.escalated ≡ some true))
gate_node_exact_example = gate_node_exact deps confident with_budget
