-- ===== src/Pdp/Queries.antt =====
-- The read endpoints of src/aegis_services/policy_approval/app.py.
use aegis_project.Prelude.{
  ℕ, String, Bool, true, false, Option, none, some, List, [], ◌∷◌, map, str_eq, leb, ◌==◌, keep,
  find, sort_by, if◌then◌else◌,
}
use aegis_project.Json.{Json}
use aegis_project.Policy.{PolicyMode, StepDisposition, StepContext, evaluate_step}
use aegis_project.Store.{Env, Db, PlanStatus, PlanRow, PlanStepRow, PolicyRow}
use aegis_project.Store.Lookup.{get_row}
use aegis_project.Http.{Response, ok, http, server_error, ◌>>=◌}

-- `PolicyMode(row.mode)`, which raises on any other text
unfoldable pub parse_mode : String → Response PolicyMode
parse_mode s =
    if str_eq s "observe"
    then ok PolicyMode.observe
    else if str_eq s "suggest"
    then ok PolicyMode.suggest
    else if str_eq s "auto_low"
    then ok PolicyMode.auto_low
    else server_error

abbrev mode_of : Option PolicyRow → Response PolicyMode
unfolding parse_mode
mode_of none = ok PolicyMode.suggest
mode_of (some row) = parse_mode row.mode

pub record StepOut : Type 0 where
  pub step_id : ℕ
  pub ordinal : ℕ
  pub action : String
  pub params : Json
  pub risk_tier : String
  pub disposition : StepDisposition

pub record PlanOut : Type 0 where
  pub plan_id : ℕ
  pub incident_id : ℕ
  pub status : PlanStatus
  pub rationale : String
  pub requires_approval : Bool
  pub autonomy_allowed : Bool
  pub steps : List StepOut

-- `where(PlanStepRow.plan_id == plan_id).order_by(PlanStepRow.ordinal)`
unfoldable pub steps_of_plan : ℕ → List PlanStepRow → List PlanStepRow
steps_of_plan plan_id rows =
    sort_by (λ a b. leb a.ordinal b.ordinal) (keep (λ r. r.plan_id == plan_id) rows)

-- The context that `_plan_out` gives `evaluate_step` for a step.
abbrev pub step_context : PlanRow → PlanStepRow → StepContext
step_context plan s = record {
  risk_tier = s.risk_tier;
  catalog_requires_approval = plan.requires_approval;
  autonomy_allowed = plan.autonomy_allowed;
}

abbrev pub step_out : PolicyMode → PlanRow → PlanStepRow → StepOut
unfolding evaluate_step
step_out mode plan s = record {
  step_id = s.id;
  ordinal = s.ordinal;
  action = s.action;
  params = s.params;
  risk_tier = s.risk_tier;
  disposition = evaluate_step mode (step_context plan s);
}

module _ (env : Env) (environment : String) where
  -- `_policy_mode`
  unfoldable pub policy_mode : Db env → Response PolicyMode
  unfolding mode_of
  policy_mode db = mode_of (find (λ p. str_eq p.environment environment) db.policies)

  -- `_plan_out`
  unfoldable pub plan_out : Db env → PlanRow → Response PlanOut
  unfolding policy_mode steps_of_plan step_out
  plan_out db plan = do
    mode ← policy_mode db
    ok (record {
      plan_id = plan.id;
      incident_id = plan.incident_id;
      status = plan.status;
      rationale = plan.rationale;
      requires_approval = plan.requires_approval;
      autonomy_allowed = plan.autonomy_allowed;
      steps = map (step_out mode plan) (steps_of_plan plan.id db.steps);
    })

  plan_outs : Db env → List PlanRow → Response (List PlanOut)
  unfolding plan_out
  plan_outs db [] = ok []
  plan_outs db (p ∷ ps) =
      let rest = plan_outs db ps in do out ← plan_out db p; outs ← rest; ok (out ∷ outs)

  abbrev is_proposed : PlanStatus → Bool
  is_proposed PlanStatus.proposed = true
  is_proposed _ = false

  -- `GET /v1/plans/pending`
  unfoldable pub pending_plans : Db env → Response (List PlanOut)
  unfolding plan_outs
  pending_plans db = plan_outs db (keep (λ p. is_proposed p.status) db.plans)

  abbrev found_plan : Db env → Option PlanRow → Response PlanOut
  unfolding plan_out
  found_plan db none = http 404
  found_plan db (some plan) = plan_out db plan

  -- `GET /v1/plans/{plan_id}`
  unfoldable pub get_plan : ℕ → Db env → Response PlanOut
  unfolding found_plan
  get_plan plan_id db = found_plan db (get_row (λ (p : PlanRow). p.id) plan_id db.plans)
