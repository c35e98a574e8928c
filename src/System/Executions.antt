-- ===== src/System/Executions.antt =====
-- The action executor keeps the approvals and the validity of the audit log, whatever it executes.
use mathlib.Core.List.{reverse}
use aegis_project.Prelude.{
  ℕ, ◌+◌, ◌≡◌, refl, ap, ◌==◌, String, false, Option, none, some, List, [], ◌∷◌, if◌then◌else◌,
  Bool-cases, inl, inr,
}
use aegis_project.Json.{Json, Fields}
use aegis_project.Security.Signing.{Capability}
use aegis_project.Security.Params.{valid, validate_action_params}
use aegis_project.Events.{IncidentEvent}
use aegis_project.Store.{Env, Db, PlanStepRow, ActionCatalogRow, IncidentRow, LedgerKey}
use aegis_project.Executor.Runtime.{Runtime, ActionResult, Attempt, done, raised}
use aegis_project.Executor.State.{State, Clocks, publish}
use aegis_project.Executor.Step.{log_execution, commit_execution, attempt, execute_step}
use aegis_project.Executor.Saga.{
  End, completed, stopped, crashed, Applied, mint_for, run_step, try_step, run_steps, as_fields,
  note_applied, get_action, compensate, compensate_all, rollback, log_rollback, rollback_of,
  verdict_text,
}
use aegis_project.Executor.Worker.{
  escalate, resolve, resolve_rows, finish, begin, execute_plan, token_or_zero,
}
use aegis_project.Schemas.{◌⧺◌}
use aegis_project.Pdp.Queries.{steps_of_plan}
use aegis_project.Store.Lookup.{update_row}
use aegis_project.Detection.Fencing.{tokens}
use aegis_project.Detection.Laws.{incident_id_of}
use aegis_project.System.Frame.{Stable, Stable-refl, Stable-trans, Stable-audit, if_either}

module _ (env : Env) (rt : Runtime env.crypto) (clocks : Clocks) where
  log_execution-Stable :
      (key : LedgerKey) (id : ℕ) (action : String) (params : Json) (result : ActionResult)
      (db : Db env)
      → Stable db (log_execution env key id action params result db)
  unfolding log_execution
  log_execution-Stable key id action params result db = Stable-audit _ db _ refl refl refl

  commit_execution-Stable :
      (key : LedgerKey) (id : ℕ) (step : PlanStepRow) (result : ActionResult) (s : State env rt)
      → Stable s.db (commit_execution env rt clocks key id step result s).1.db
  unfolding commit_execution
  commit_execution-Stable key id step result s =
      if_either (λ (r : Attempt ActionResult × State env rt). Stable s.db r.1.db) _ _ _
        (log_execution-Stable key id step.action step.params result s.db) (Stable-refl s.db)

  attempt-Stable :
      (key : LedgerKey) (id : ℕ) (step : PlanStepRow) (params : Fields)
      (cap : Capability env.crypto) (s : State env rt)
      → Stable s.db (attempt env rt clocks key id step params cap s).1.db
  unfolding attempt
  attempt-Stable key id step params cap s =
      if_either (λ (r : Attempt ActionResult × State env rt). Stable s.db r.1.db) _ _ _
        (commit_execution-Stable key id step _ _) (Stable-refl s.db)

  execute_step-Stable :
      (id : ℕ) (step : PlanStepRow) (params : Fields) (cap : Capability env.crypto)
      (s : State env rt)
      → Stable s.db (execute_step env rt clocks id step params cap s).1.db
  unfolding execute_step
  execute_step-Stable id step params cap s =
      if_either (λ (r : Attempt ActionResult × State env rt). Stable s.db r.1.db) _ _ _
        (Stable-refl s.db) (attempt-Stable _ id step params cap s)

  run_step-Stable :
      (id plan_id fencing : ℕ) (step : PlanStepRow) (c : ActionCatalogRow) (s : State env rt)
      → Stable s.db (run_step env rt clocks id plan_id fencing step c s).1.db
  unfolding run_step mint_for
  run_step-Stable id plan_id fencing step c s =
      let params = as_fields step.params in
      let (cap, s') = mint_for env rt clocks id plan_id fencing params s in
      let ran = execute_step env rt clocks id step params cap s' in
      elim (validate_action_params step.params c.params_schema)
        as (λ v.
          let t : Attempt ActionResult × State env rt = elim v [
            | valid ↦ ran
            | other ↦ (
              done (record {
                ok = false;
                detail =
                    "param validation failed: "
                    ⧺ verdict_text env step.action c.params_schema other;
              }),
              s,
            )
          ] in
          Stable s.db t.1.db) [
            | valid ↦ execute_step-Stable id step params cap s'
            | _ ↦ Stable-refl s.db
          ]

  try_step-Stable :
      (id plan_id fencing : ℕ) (step : PlanStepRow) (o : Option ActionCatalogRow) (s : State env rt)
      → Stable s.db (try_step env rt clocks id plan_id fencing step o s).1.db
  unfolding try_step
  try_step-Stable id plan_id fencing step none s = Stable-refl s.db
  try_step-Stable id plan_id fencing step (some c) s =
      if_either (λ (r : Attempt ActionResult × State env rt). Stable s.db r.1.db) _ _ _
        (run_step-Stable id plan_id fencing step c s) (Stable-refl s.db)

  run_steps-Stable :
      (id plan_id fencing : ℕ) (catalog : List ActionCatalogRow) (steps : List PlanStepRow)
      (applied : List Applied) (s : State env rt)
      → Stable s.db (run_steps env rt clocks id plan_id fencing catalog steps applied s).2.db
  unfolding run_steps
  run_steps-Stable id plan_id fencing catalog [] applied s = Stable-refl s.db
  run_steps-Stable id plan_id fencing catalog (step ∷ steps) applied s =
      let c = get_action step.action catalog in
      let tried = try_step env rt clocks id plan_id fencing step c s in
      let one = try_step-Stable id plan_id fencing step c s in
      let rest =
        run_steps-Stable id plan_id fencing catalog steps (note_applied step c applied) tried.1 in
      let ended : End × List Applied × State env rt =
        run_steps env rt clocks id plan_id fencing catalog steps (note_applied step c applied)
          tried.1 in
      elim tried.0
        as (λ r.
          let t : End × List Applied × State env rt = elim r [
            | raised e ↦ (crashed e, applied, tried.1)
            | done result ↦ if result.ok then ended else (stopped result.detail, applied, tried.1)
          ] in
          Stable s.db t.2.db) [
            | raised e ↦ one
            | done result ↦
                if_either (λ (r : End × List Applied × State env rt). Stable s.db r.2.db) result.ok
                  ended (stopped result.detail, applied, tried.1) (Stable-trans one rest) one
          ]

  compensate-Stable :
      (id plan_id fencing : ℕ) (a : Applied) (s : State env rt)
      → Stable s.db (compensate env rt clocks id plan_id fencing a s).db
  unfolding compensate mint_for log_rollback
  compensate-Stable id plan_id fencing a s =
      let (cap, s') = mint_for env rt clocks id plan_id fencing a.params s in
      elim (rollback_of a.entry)
        as (λ o.
          let t : State env rt = elim o [
            | none ↦ s
            | some rb ↦
                let (result, target) = rt.apply (clocks.wall s'.reads) rb a.params cap s'.target in
                record s' {
                  target = target;
                  reads = s'.reads + 1;
                  db = log_rollback env rt clocks id a rb result s'.db;
                }
          ] in
          Stable s.db t.db) [
            | none ↦ Stable-refl s.db
            | some rb ↦ Stable-audit _ s.db _ refl refl refl
          ]

  compensate_all-Stable :
      (id plan_id fencing : ℕ) (as' : List Applied) (s : State env rt)
      → Stable s.db (compensate_all env rt clocks id plan_id fencing as' s).db
  unfolding compensate_all
  compensate_all-Stable id plan_id fencing [] s = Stable-refl s.db
  compensate_all-Stable id plan_id fencing (a ∷ as') s =
      Stable-trans (compensate-Stable id plan_id fencing a s) (
        compensate_all-Stable id plan_id fencing as'
          (compensate env rt clocks id plan_id fencing a s))

  -- A change of an incident that keeps its token keeps the tokens.
  tokens-update_row :
      (id : ℕ) (f : IncidentRow → IncidentRow)
      → ((r : IncidentRow) → (f r).fencing_token ≡ r.fencing_token)
      → (rows : List IncidentRow)
      → tokens env (update_row incident_id_of id f rows) ≡ tokens env rows
  unfolding update_row
  tokens-update_row id f keeps [] = refl
  tokens-update_row id f keeps (r ∷ rows) = elim (Bool-cases (r.id == id)) [
    | inl e ↦ rw e (ap (λ t. t ∷ tokens env rows) (keeps r))
    | inr e ↦ rw e (ap (λ ts. r.fencing_token ∷ ts) (tokens-update_row id f keeps rows))
  ]

  resolve_rows-Stable :
      (now id plan_id : ℕ) (db : Db env) → Stable db (resolve_rows env rt clocks now id plan_id db)
  unfolding resolve_rows
  resolve_rows-Stable now id plan_id db =
      Stable-audit _ db _ refl (tokens-update_row id _ (λ r. refl) db.incidents) refl

  finish-Stable :
      (id plan_id fencing : ℕ) (e : IncidentEvent env.crypto.Digest) (end' : End)
      (applied : List Applied) (s : State env rt)
      → Stable s.db (finish env rt clocks id plan_id fencing e (end', applied, s)).1.db
  unfolding finish resolve escalate publish rollback
  finish-Stable id plan_id fencing e completed applied s =
      resolve_rows-Stable (clocks.wall s.reads) id plan_id s.db
  finish-Stable id plan_id fencing e (stopped detail) applied s =
      compensate_all-Stable id plan_id fencing (reverse applied) s
  finish-Stable id plan_id fencing e (crashed x) applied s = Stable-refl s.db

  -- A whole execution.
  pub execute_plan-Stable :
      (inc : IncidentRow) (id plan_id : ℕ) (e : IncidentEvent env.crypto.Digest) (s : State env rt)
      → Stable s.db (execute_plan env rt clocks inc id plan_id e s).1.db
  unfolding execute_plan begin publish
  execute_plan-Stable inc id plan_id e s =
      let s1 = begin env rt clocks inc id plan_id s in
      let (end', applied, s2) =
        run_steps env rt clocks id plan_id (token_or_zero inc) s.db.catalog
          (steps_of_plan plan_id s.db.steps) [] s1 in
      let started : Stable s.db s1.db = record {
        frame = record { same_approvals = refl; audit_valid = λ v. v };
        same_tokens = refl;
      } in
      Stable-trans started (
        Stable-trans
          (run_steps-Stable id plan_id (token_or_zero inc) s.db.catalog
            (steps_of_plan plan_id s.db.steps) [] s1)
          (finish-Stable id plan_id (token_or_zero inc) e end' applied s2))
