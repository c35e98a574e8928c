-- ===== src/Orchestrator/Persist.antt =====
-- The session of `_persist_and_emit` of src/aegis_services/orchestrator/worker.py.
use aegis_project.Prelude.{ℕ, String, Option, none, some, List, [], ◌∷◌, ◌++◌, if◌then◌else◌}
use aegis_project.Json.{Json, end, field, Items, nil, or_default}
use aegis_project.Events.{IncidentEvent, IncidentEventType}
use aegis_project.Audit.{append_audit}
use aegis_project.Store.{Env, Db, PlanRow, PlanStepRow}
use aegis_project.Orchestrator.State.{IncidentState}
use aegis_project.Orchestrator.Rows.{
  snapshot, upsert_snapshot, gives_up, as_text, step_rows, items_of, action_names, null_or,
  confidence_json, other_plans, other_steps, plan_row, Fresh, reason_of,
}

module _ (env : Env) (fresh : Fresh) where
  -- The session when no plan is proposed.
  unfoldable pub write_escalation :
      ℕ → IncidentEvent env.crypto.Digest → IncidentState → Db env → Db env
  unfolding upsert_snapshot snapshot
  write_escalation incident_id event final db = record db {
    snapshots = upsert_snapshot (snapshot incident_id final) db.snapshots;
    audit =
        append_audit env.hasher
          (record {
            actor = "orchestrator";
            action = "incident.escalated";
            payload = field "reason" (reason_of fresh final.escalation_reason) end;
            incident_id = some incident_id;
            trace_id = event.trace_id;
          })
          db.audit;
  }

  -- The event that is published then.
  unfoldable pub escalated_event :
      ℕ → IncidentEvent env.crypto.Digest → IncidentState → IncidentEvent env.crypto.Digest
  escalated_event incident_id event final = record {
    incident_id = incident_id;
    event_type = IncidentEventType.escalated;
    fencing_token = final.fencing_token;
    trace_id = event.trace_id;
    payload =
        field "reason" (reason_of fresh final.escalation_reason)
          (field "root_cause" (or_default (Json.text "") final.root_cause) end);
    signature = none;
  }

  -- The session that replaces the plans of the incident by the new one.
  unfoldable pub write_plan :
      ℕ
      → IncidentEvent env.crypto.Digest
      → IncidentState
      → PlanRow
      → List PlanStepRow
      → Items
      → Db env
      → Db env
  unfolding upsert_snapshot snapshot other_plans other_steps
  write_plan incident_id event final plan steps proposals db = record db {
    snapshots = upsert_snapshot (snapshot incident_id final) db.snapshots;
    plans = other_plans incident_id db.plans ++ plan ∷ [];
    steps = other_steps incident_id db.plans db.steps ++ steps;
    audit =
        append_audit env.hasher
          (record {
            actor = "orchestrator";
            action = "incident.plan_proposed";
            payload = field "plan_id" (Json.uuid plan.id) (
                field "actions" (Json.arr (action_names proposals)) (
                  field "requires_approval" (Json.bool plan.requires_approval)
                    (field "confidence" (confidence_json final.confidence) end)));
            incident_id = some incident_id;
            trace_id = event.trace_id;
          })
          db.audit;
  }

  -- The event that proposes the plan.
  unfoldable pub proposed_event :
      ℕ
      → IncidentEvent env.crypto.Digest
      → IncidentState
      → PlanRow
      → IncidentEvent env.crypto.Digest
  proposed_event incident_id event final plan = record {
    incident_id = incident_id;
    event_type = IncidentEventType.plan_proposed;
    fencing_token = final.fencing_token;
    trace_id = event.trace_id;
    payload = field "plan_id" (Json.uuid plan.id) (
        field "title" (Json.text final.title) (
          field "severity" final.severity (
            field "root_cause" (null_or final.root_cause)
              (field "requires_approval" (Json.bool plan.requires_approval) end))));
    signature = none;
  }

  -- What is written and published: `none` where the session raises.
  abbrev pub Written : Type 0
  Written = Option (Db env × IncidentEvent env.crypto.Digest)

  unfoldable pub with_steps :
      ℕ
      → IncidentEvent env.crypto.Digest
      → IncidentState
      → PlanRow
      → Items
      → Db env
      → Option (List PlanStepRow)
      → Written
  unfolding write_plan proposed_event
  with_steps incident_id event final plan proposals db none = none
  with_steps incident_id event final plan proposals db (some steps) = some (
    write_plan incident_id event final plan steps proposals db,
    proposed_event incident_id event final plan,
  )

  -- The branch that proposes, on the rationale and the plan as the flush takes them.
  unfoldable pub propose :
      Option String
      → Option Items
      → ℕ
      → IncidentEvent env.crypto.Digest
      → IncidentState
      → List (String × String)
      → Db env
      → Written
  unfolding with_steps plan_row step_rows
  propose (some rationale) (some proposals) incident_id event final risk_tiers db =
      with_steps incident_id event final (plan_row fresh.plan_id incident_id rationale final)
        proposals db (step_rows fresh.step_id fresh.plan_id risk_tiers 0 proposals)
  propose _ _ incident_id event final risk_tiers db = none

  unfoldable pub persist :
      ℕ
      → IncidentEvent env.crypto.Digest
      → IncidentState
      → List (String × String)
      → Db env
      → Written
  unfolding write_escalation escalated_event propose
  persist incident_id event final risk_tiers db =
      if gives_up final
      then some
          (write_escalation incident_id event final db, escalated_event incident_id event final)
      else propose (as_text (or_default (Json.text "") final.rationale))
          (items_of (or_default (Json.arr nil) final.plan)) incident_id event final risk_tiers db
