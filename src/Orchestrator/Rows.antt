-- ===== src/Orchestrator/Rows.antt =====
-- The rows that `_persist_and_emit` of src/aegis_services/orchestrator/worker.py writes. The text
-- of an escalation's reason and the ids of new rows are arguments.
use aegis_project.Prelude.{
  ℕ, ◌+◌, String, Bool, true, not, ◌&&◌, ◌||◌, Option, none, some, List, [], ◌∷◌, ◌++◌, keep, any,
  ◌==◌,
}
use aegis_project.Prelude.Int.{ℤ}
use aegis_project.Json.{Json, end, Items, nil, cons, get, get_or, truthy, or_default}
use aegis_project.Store.{PlanRow, proposed, PlanStepRow, pending, WorkflowSnapshotRow}
use aegis_project.Store.Lookup.{get_row, update_row}
use aegis_project.Orchestrator.State.{Decided, Escalation, IncidentState}
use aegis_project.Orchestrator.Graph.{or_false}
use aegis_project.Orchestrator.Load.{risk_tier_of}

abbrev pub decided_value : Option Decided → String
decided_value none = "unknown"
decided_value (some Decided.escalate) = "escalate"
decided_value (some Decided.recommend) = "recommend"
decided_value (some Decided.plan_ready) = "plan_ready"

abbrev pub or_nat : Option ℕ → ℕ
or_nat none = 0
or_nat (some n) = n

-- `snap`, after its columns were set
unfoldable pub snapshot : ℕ → IncidentState → WorkflowSnapshotRow
snapshot incident_id final = record {
  incident_id = incident_id;
  state = final;
  decision = decided_value final.decision;
  iterations = or_nat final.iterations;
  tokens_used = or_nat final.tokens_used;
}

abbrev pub snapshot_key : WorkflowSnapshotRow → ℕ
snapshot_key w = w.incident_id

abbrev write_snapshot :
    Option WorkflowSnapshotRow
    → WorkflowSnapshotRow
    → List WorkflowSnapshotRow
    → List WorkflowSnapshotRow
unfolding update_row
write_snapshot none snap rows = rows ++ snap ∷ []
write_snapshot (some old) snap rows = update_row snapshot_key snap.incident_id (λ _. snap) rows

-- The upsert of the snapshot.
unfoldable pub upsert_snapshot :
    WorkflowSnapshotRow → List WorkflowSnapshotRow → List WorkflowSnapshotRow
unfolding get_row write_snapshot
upsert_snapshot snap rows = write_snapshot (get_row snapshot_key snap.incident_id rows) snap rows

-- `escalated or not final.get("plan")`
unfoldable pub gives_up : IncidentState → Bool
gives_up final = or_false final.escalated || not (truthy (or_default Json.null final.plan))

-- A column of text; anything else makes the flush raise.
abbrev pub as_text : Json → Option String
as_text (Json.text s) = some s
as_text _ = none

-- The row of one proposed step, at its place; `none` where its `get` or its insert raises.
unfoldable pub step_row : (ℕ → ℕ) → ℕ → List (String × String) → ℕ → Json → Option PlanStepRow
unfolding get_or risk_tier_of
step_row ids plan_id risk_tiers i (Json.obj step) =
    elim (as_text (get_or "action" (Json.text "") step)) [
      | none ↦ none
      | some action ↦ some (record {
        id = ids i;
        plan_id = plan_id;
        ordinal = i;
        action = action;
        params = get_or "params" (Json.obj end) step;
        risk_tier = risk_tier_of action risk_tiers;
        status = pending;
      })
    ]
step_row ids plan_id risk_tiers i _ = none

abbrev pub cons_row : Option PlanStepRow → Option (List PlanStepRow) → Option (List PlanStepRow)
cons_row (some r) (some rs) = some (r ∷ rs)
cons_row _ _ = none

-- `for i, step in enumerate(...)`
unfoldable pub step_rows :
    (ℕ → ℕ) → ℕ → List (String × String) → ℕ → Items → Option (List PlanStepRow)
unfolding step_row
step_rows ids plan_id risk_tiers i nil = some []
step_rows ids plan_id risk_tiers i (cons step steps) =
    cons_row (step_row ids plan_id risk_tiers i step)
      (step_rows ids plan_id risk_tiers (i + 1) steps)

-- What a plan that is no list goes through: its elements are no dictionaries.
abbrev pub items_of : Json → Option Items
items_of (Json.arr xs) = some xs
items_of _ = none

-- `[s.get("action") for s in plan]`
abbrev pub action_names : Items → Items
unfolding get
action_names nil = nil
action_names (cons (Json.obj s) xs) = cons (or_default Json.null (get "action" s)) (action_names xs)
action_names (cons _ xs) = action_names xs

abbrev pub confidence_json : Option ℤ → Json
confidence_json none = Json.null
confidence_json (some z) = Json.float z

abbrev pub null_or : Option Json → Json
null_or o = or_default Json.null o

-- The plans without those of an incident, and the steps without those of such plans.
unfoldable pub other_plans : ℕ → List PlanRow → List PlanRow
other_plans incident_id rows = keep (λ (p : PlanRow). not (p.incident_id == incident_id)) rows

-- `PlanStepRow.plan_id.in_(old)`
abbrev pub in_old : ℕ → List PlanRow → PlanStepRow → Bool
in_old incident_id plans s = any (λ p. p.incident_id == incident_id && p.id == s.plan_id) plans

unfoldable pub other_steps : ℕ → List PlanRow → List PlanStepRow → List PlanStepRow
other_steps incident_id plans rows = keep (λ s. not (in_old incident_id plans s)) rows

-- `plan`, on a rationale that is a text
unfoldable pub plan_row : ℕ → ℕ → String → IncidentState → PlanRow
plan_row plan_id incident_id rationale final = record {
  id = plan_id;
  incident_id = incident_id;
  status = proposed;
  rationale = rationale;
  requires_approval = elim final.requires_approval [ none ↦ true | some b ↦ b ];
  autonomy_allowed = or_false final.autonomy_allowed;
}

-- What the environment supplies: the text of a reason, the ids of the new plan and its steps, and
-- whether the broker takes the event that is published after the commit.
pub record Fresh : Type 0 where
  pub reason_text : Escalation → String
  pub plan_id : ℕ
  pub step_id : ℕ → ℕ
  pub delivers : Bool

abbrev pub reason_of : Fresh → Option Escalation → Json
reason_of fresh none = Json.text "no plan"
reason_of fresh (some e) = Json.text (fresh.reason_text e)
