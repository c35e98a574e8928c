-- ===== src/Executor/Saga.antt =====
-- The loop over a plan's steps in `handle_approved`, and `_rollback`, of
-- src/aegis_services/action_executor/worker.py.
use mathlib.Core.List.{reverse}
use aegis_project.Prelude.{
  ℕ, ◌+◌, String, false, Option, none, some, List, [], ◌∷◌, ◌++◌, str_eq, if◌then◌else◌,
}
use aegis_project.Json.{Json, Fields, end, field, Items, nil, cons, get_or}
use aegis_project.Schemas.{◌⧺◌}
use aegis_project.Audit.{append_audit}
use aegis_project.Security.Signing.{Capability, mint_credential}
use aegis_project.Security.Params.{
  Verdict, valid, not_object, missing, bad_schema, validate_action_params,
}
use aegis_project.Store.{Env, Db, PlanStepRow, StepStatus, ActionCatalogRow}
use aegis_project.Store.Lookup.{update_row}
use aegis_project.Executor.Runtime.{ActionResult, Runtime, Attempt, done, raised, namespace_of}
use aegis_project.Executor.State.{State, Clocks}
use aegis_project.Executor.Step.{execute_step}

-- `catalog.get(step.action)`, on a table whose names are unique
unfoldable pub get_action : String → List ActionCatalogRow → Option ActionCatalogRow
get_action name [] = none
get_action name (r ∷ rs) = if str_eq r.name name then some r else get_action name rs

-- How the loop ended: through all steps, at a failure with its detail, or by an exception.
pub data End : Type 0 where
  completed : End
  stopped : String → End
  crashed : String → End

-- A step that was applied, with its parameters and its catalog entry.
pub record Applied : Type 0 where
  pub step : PlanStepRow
  pub params : Fields
  pub entry : ActionCatalogRow

-- A dictionary, once it was checked to be one.
abbrev pub as_fields : Json → Fields
as_fields (Json.obj d) = d
as_fields _ = end

-- `applied` with the step that was just executed.
abbrev pub note_applied : PlanStepRow → Option ActionCatalogRow → List Applied → List Applied
note_applied step none applied = applied
note_applied step (some c) applied =
    applied ++ record { step = step; params = as_fields step.params; entry = c } ∷ []

-- `if not rb`
abbrev pub rollback_of : ActionCatalogRow → Option String
rollback_of c = elim c.rollback_action [
  | none ↦ none
  | some a ↦ if str_eq a "" then none else some a
]

abbrev items_of : List Json → Items
items_of [] = nil
items_of (j ∷ js) = cons j (items_of js)

module _ (env : Env) where
  -- The text of the exception that the parameter check raises.
  unfoldable pub verdict_text : String → Fields → Verdict → String
  unfolding get_or
  verdict_text action schema valid = ""
  verdict_text action schema not_object = action ⧺ ": params must be an object"
  verdict_text action schema (missing ks) =
      action ⧺ ": missing required params " ⧺ env.show (Json.arr (items_of ks))
  verdict_text action schema bad_schema = env.not_iterable (get_or "required" (Json.arr nil) schema)

module _ (env : Env) (rt : Runtime env.crypto) (clocks : Clocks) where
  -- `mint_credential` for a step's namespace, and a reading of the wall clock
  unfoldable pub mint_for : ℕ → ℕ → ℕ → Fields → State env rt → Capability env.crypto × State env rt
  mint_for incident_id plan_id fencing params s = (
    mint_credential env.crypto (clocks.wall s.reads) incident_id plan_id fencing
        (namespace_of params) 120,
    record s { reads = s.reads + 1 },
  )

  -- One step that passed the catalog: the parameters are checked, the capability is minted and
  -- the step executed. `done` tells whether it was applied.
  unfoldable pub run_step :
      ℕ
      → ℕ
      → ℕ
      → PlanStepRow
      → ActionCatalogRow
      → State env rt
      → Attempt ActionResult × State env rt
  unfolding mint_for
  run_step incident_id plan_id fencing step entry s =
      let params = as_fields step.params in
      let (cap, s') = mint_for incident_id plan_id fencing params s in
      let ran = execute_step env rt clocks incident_id step params cap s' in
      elim (validate_action_params step.params entry.params_schema) [
        | valid ↦ ran
        | other ↦ (
          done (record {
            ok = false;
            detail =
                "param validation failed: "
                ⧺ verdict_text env step.action entry.params_schema other;
          }),
          s,
        )
      ]

  -- One round of the loop.
  unfoldable pub try_step :
      ℕ
      → ℕ
      → ℕ
      → PlanStepRow
      → Option ActionCatalogRow
      → State env rt
      → Attempt ActionResult × State env rt
  unfolding run_step
  try_step incident_id plan_id fencing step none s = (
    done (record { ok = false; detail = "action " ⧺ step.action ⧺ " not in catalog/enabled" }),
    s,
  )
  try_step incident_id plan_id fencing step (some c) s =
      if c.enabled then run_step incident_id plan_id fencing step c s else (
        done (record { ok = false; detail = "action " ⧺ step.action ⧺ " not in catalog/enabled" }),
        s,
      )

  -- The loop, over the catalog as it was read: how it ended, and the steps applied in order.
  unfoldable pub run_steps :
      ℕ
      → ℕ
      → ℕ
      → List ActionCatalogRow
      → List PlanStepRow
      → List Applied
      → State env rt
      → End × List Applied × State env rt
  unfolding try_step
  run_steps incident_id plan_id fencing catalog [] applied s = (completed, applied, s)
  run_steps incident_id plan_id fencing catalog (step ∷ steps) applied s =
      let c = get_action step.action catalog in
      let (r, s') = try_step incident_id plan_id fencing step c s in
      let rest =
        run_steps incident_id plan_id fencing catalog steps (note_applied step c applied) s' in
      elim r [
        | raised e ↦ (crashed e, applied, s')
        | done result ↦ if result.ok then rest else (stopped result.detail, applied, s')
      ]

  -- The rows that a rolled back step writes.
  unfoldable pub log_rollback : ℕ → Applied → String → ActionResult → Db env → Db env
  log_rollback incident_id a rb result db = record db {
    steps =
        update_row (λ (r : PlanStepRow). r.id) a.step.id
          (λ r. record r { status = StepStatus.rolled_back }) db.steps;
    audit =
        append_audit env.hasher
          (record {
            actor = "action-executor";
            action = "action.rolled_back";
            payload = field "action" (Json.text a.step.action) (
                field "rollback" (Json.text rb) (
                  field "ok" (Json.bool result.ok) (field "detail" (Json.text result.detail) end)));
            incident_id = some incident_id;
            trace_id = none;
          })
          db.audit;
  }

  -- The compensation of one step.
  unfoldable pub compensate : ℕ → ℕ → ℕ → Applied → State env rt → State env rt
  unfolding mint_for
  compensate incident_id plan_id fencing a s = elim (rollback_of a.entry) [
    | none ↦ s
    | some rb ↦
        let (cap, s') = mint_for incident_id plan_id fencing a.params s in
        let (result, target) = rt.apply (clocks.wall s'.reads) rb a.params cap s'.target in
        record s' {
          target = target;
          reads = s'.reads + 1;
          db = log_rollback incident_id a rb result s'.db;
        }
  ]

  unfoldable pub compensate_all : ℕ → ℕ → ℕ → List Applied → State env rt → State env rt
  unfolding compensate
  compensate_all incident_id plan_id fencing [] s = s
  compensate_all incident_id plan_id fencing (a ∷ as') s =
      compensate_all incident_id plan_id fencing as' (compensate incident_id plan_id fencing a s)

  -- `_rollback`: the applied steps in reverse
  unfoldable pub rollback : ℕ → ℕ → ℕ → List Applied → State env rt → State env rt
  unfolding compensate_all
  rollback incident_id plan_id fencing applied s =
      compensate_all incident_id plan_id fencing (reverse applied) s
