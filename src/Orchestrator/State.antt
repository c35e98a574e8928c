-- ===== src/Orchestrator/State.antt =====
-- src/aegis_services/orchestrator/state.py: the state that the agents share. A key that is absent
-- is `none`; the prompts' `query` and the `notes` are left out. Confidences and scores are counted
-- in millionths.
use aegis_project.Prelude.{ℕ, String, Bool, Option, none, List}
use aegis_project.Prelude.Int.{ℤ}
use aegis_project.Json.{Json}
use aegis_project.Reliability.Budget.{Reason}

pub data Decided : Type 0 where
  escalate recommend plan_ready : Decided

-- Why the gate escalates.
pub data Escalation : Type 0 where
  exhausted : Reason → Escalation
  low_confidence : ℤ → Escalation

pub record IncidentState : Type 0 where
  pub incident_id : ℕ
  pub fencing_token : Option ℕ
  pub title : String
  pub services : List String
  pub severity : Json
  pub triage_summary : Option Json
  pub urgent : Option Bool
  pub citations : Option Json
  pub has_precedent : Option Bool
  pub best_precedent_score : Option ℤ
  pub root_cause : Option Json
  pub confidence : Option ℤ
  pub evidence_refs : Option Json
  pub plan : Option Json
  pub rationale : Option Json
  pub autonomy_allowed : Option Bool
  pub requires_approval : Option Bool
  pub escalated : Option Bool
  pub escalation_reason : Option Escalation
  pub iterations : Option ℕ
  pub tokens_used : Option ℕ
  pub decision : Option Decided

-- The initial state that `handle_opened` builds.
unfoldable pub initial_state : ℕ → Option ℕ → String → List String → Json → IncidentState
initial_state incident_id fencing_token title services severity = record {
  incident_id = incident_id;
  fencing_token = fencing_token;
  title = title;
  services = services;
  severity = severity;
  triage_summary = none;
  urgent = none;
  citations = none;
  has_precedent = none;
  best_precedent_score = none;
  root_cause = none;
  confidence = none;
  evidence_refs = none;
  plan = none;
  rationale = none;
  autonomy_allowed = none;
  requires_approval = none;
  escalated = none;
  escalation_reason = none;
  iterations = none;
  tokens_used = none;
  decision = none;
}
