-- ===== src/Executor/Outcome.antt =====
-- How the execution of a plan in src/aegis_services/action_executor/worker.py ends.
use mathlib.Core.List.{reverse}
use mathlib.Core.Path.{subst}
use aegis_project.Prelude.{
  ℕ, suc, ◌≡◌, refl, sym, ap, ◌∙◌, String, Option, none, some, List, [], ◌∷◌, ◌++◌, arith,
}
use aegis_project.Json.{Json, Fields, end, field, get}
use aegis_project.Security.Signing.{IsSound, Capability}
use aegis_project.Events.{IncidentEvent, IncidentEventType, plain_event}
use aegis_project.Schemas.{◌⧺◌}
use aegis_project.Pdp.Queries.{steps_of_plan}
use aegis_project.Store.{Env, PlanStepRow, ActionCatalogRow, IncidentRow}
use aegis_project.Executor.Runtime.{Runtime}
use aegis_project.Executor.State.{State, Clocks, publish}
use aegis_project.Executor.Step.{commit_execution, attempt, execute_step}
use aegis_project.Executor.Saga.{
  End, completed, stopped, crashed, Applied, mint_for, run_step, try_step, run_steps, as_fields,
  note_applied, get_action, compensate, compensate_all, rollback,
}
use aegis_project.Store.{Db, PlanRow, approve}
use aegis_project.Store.Lookup.{get_row, get_row-key}
use aegis_project.Pdp.Decide.{decide, approved_event}
use aegis_project.Pdp.Outcome.{IsDecidable}
use aegis_project.Pdp.Laws.{decide_effects}
use aegis_project.Executor.Gate.{signed_for_another}
use aegis_project.Executor.Worker.{
  handle_approved, Handled, returned, failed, escalate, resolve, finish, begin, execute_plan,
  token_or_zero,
}

module _ (env : Env) (rt : Runtime env.crypto) (clocks : Clocks) where
  execute_step-bus :
      (id : ℕ) (step : PlanStepRow) (params : Fields) (cap : Capability env.crypto)
      (s : State env rt)
      → (execute_step env rt clocks id step params cap s).1.bus ≡ s.bus
  unfolding execute_step attempt commit_execution
  execute_step-bus id step params cap s = ground arith

  run_step-bus :
      (id plan_id fencing : ℕ) (step : PlanStepRow) (c : ActionCatalogRow) (s : State env rt)
      → (run_step env rt clocks id plan_id fencing step c s).1.bus ≡ s.bus
  unfolding run_step mint_for
  run_step-bus id plan_id fencing step c s =
      let params = as_fields step.params in
      let (cap, s') = mint_for env rt clocks id plan_id fencing params s in
      ground (arith, execute_step-bus id step params cap s')

  try_step-bus :
      (id plan_id fencing : ℕ) (step : PlanStepRow) (o : Option ActionCatalogRow) (s : State env rt)
      → (try_step env rt clocks id plan_id fencing step o s).1.bus ≡ s.bus
  unfolding try_step
  try_step-bus id plan_id fencing step none s = refl
  try_step-bus id plan_id fencing step (some c) s =
      ground (arith, run_step-bus id plan_id fencing step c s)

  run_steps-bus :
      (id plan_id fencing : ℕ) (catalog : List ActionCatalogRow) (steps : List PlanStepRow)
      (applied : List Applied) (s : State env rt)
      → (run_steps env rt clocks id plan_id fencing catalog steps applied s).2.bus ≡ s.bus
  unfolding run_steps
  run_steps-bus id plan_id fencing catalog [] applied s = refl
  run_steps-bus id plan_id fencing catalog (step ∷ steps) applied s =
      let c = get_action step.action catalog in
      let s' = (try_step env rt clocks id plan_id fencing step c s).1 in
      ground (
        arith,
        try_step-bus id plan_id fencing step c s,
        run_steps-bus id plan_id fencing catalog steps (note_applied step c applied) s',
      )

  compensate-bus :
      (id plan_id fencing : ℕ) (a : Applied) (s : State env rt)
      → (compensate env rt clocks id plan_id fencing a s).bus ≡ s.bus
  unfolding compensate mint_for
  compensate-bus id plan_id fencing a s = ground arith

  compensate_all-bus :
      (id plan_id fencing : ℕ) (as' : List Applied) (s : State env rt)
      → (compensate_all env rt clocks id plan_id fencing as' s).bus ≡ s.bus
  unfolding compensate_all
  compensate_all-bus id plan_id fencing [] s = refl
  compensate_all-bus id plan_id fencing (a ∷ as') s =
      compensate_all-bus id plan_id fencing as' (compensate env rt clocks id plan_id fencing a s)
      ∙ compensate-bus id plan_id fencing a s

  -- How an execution ends: with one RESOLVED event, with one ESCALATED event, or by a raise that
  -- publishes neither.
  pub data Concluded (before : List (IncidentEvent env.crypto.Digest))
      : Handled → List (IncidentEvent env.crypto.Digest) → Type 0 where
    resolved :
        (e : IncidentEvent env.crypto.Digest) (bus : List (IncidentEvent env.crypto.Digest))
        → e.event_type ≡ IncidentEventType.resolved
        → bus ≡ before ++ e ∷ []
        → Concluded before returned bus
    escalated :
        (e : IncidentEvent env.crypto.Digest) (bus : List (IncidentEvent env.crypto.Digest))
        → e.event_type ≡ IncidentEventType.escalated
        → bus ≡ before ++ e ∷ []
        → Concluded before returned bus
    crashed_at :
        (bus : List (IncidentEvent env.crypto.Digest)) → bus ≡ before → Concluded before failed bus

  finish-Concluded :
      (id plan_id fencing : ℕ) (e : IncidentEvent env.crypto.Digest) (end' : End)
      (applied : List Applied) (s : State env rt)
      → let r = finish env rt clocks id plan_id fencing e (end', applied, s) in
        Concluded s.bus r.0 r.1.bus
  unfolding finish resolve escalate publish rollback
  finish-Concluded id plan_id fencing e completed applied s = Concluded.resolved _ _ refl refl
  finish-Concluded id plan_id fencing e (stopped detail) applied s =
      let out : IncidentEvent env.crypto.Digest =
        plain_event id IncidentEventType.escalated
          (field "reason" (Json.text ("execution failed: " ⧺ detail)) end) in
      Concluded.escalated out _ refl
        (ap (λ b. b ++ out ∷ []) (compensate_all-bus id plan_id fencing (reverse applied) s))
  finish-Concluded id plan_id fencing e (crashed x) applied s = Concluded.crashed_at _ refl

  -- The execution of a plan publishes EXECUTING first, and then exactly one of RESOLVED and
  -- ESCALATED, unless it raises, in which case it publishes nothing more: no execution that
  -- returns leaves the incident executing.
  pub execute_plan-Concluded :
      (inc : IncidentRow) (id plan_id : ℕ) (e : IncidentEvent env.crypto.Digest) (s : State env rt)
      → let r = execute_plan env rt clocks inc id plan_id e s in
        (start : IncidentEvent env.crypto.Digest) × (start.event_type ≡ IncidentEventType.executing)
        × (start.incident_id ≡ id)
        × (get "plan_id" start.payload ≡ some (Json.uuid plan_id))
        × Concluded (s.bus ++ start ∷ []) r.0 r.1.bus
  unfolding execute_plan begin publish get
  execute_plan-Concluded inc id plan_id e s =
      let s1 = begin env rt clocks inc id plan_id s in
      let fencing = token_or_zero inc in
      let steps = steps_of_plan plan_id s.db.steps in
      let (end', applied, s2) =
        run_steps env rt clocks id plan_id fencing s.db.catalog steps [] s1 in
      let start : IncidentEvent env.crypto.Digest = record {
        incident_id = id;
        event_type = IncidentEventType.executing;
        fencing_token = inc.fencing_token;
        trace_id = none;
        payload = field "plan_id" (Json.uuid plan_id) end;
        signature = none;
      } in
      let r = finish env rt clocks id plan_id fencing e (end', applied, s2) in
      (
        start,
        refl,
        refl,
        refl,
        subst (λ b. Concluded b r.0 r.1.bus)
            (run_steps-bus id plan_id fencing s.db.catalog steps [] s1)
            (finish-Concluded id plan_id fencing e end' applied s2),
      )

  runs_approved :
      (sound : IsSound env.crypto) (plan_id : ℕ) (approver : String) (plan : PlanRow) (token : ℕ)
      (s : State env rt) (now : PlanRow) (inc : IncidentRow)
      → plan.id ≡ plan_id
      → get_row (λ (p : PlanRow). p.id) plan_id s.db.plans ≡ some now
      → get_row (λ (i : IncidentRow). i.id) plan.incident_id s.db.incidents ≡ some inc
      → inc.fencing_token ≡ some (suc token)
      → let e = approved_event env plan approver (suc token) in
        handle_approved env rt clocks e s
        ≡ execute_plan env rt clocks inc plan.incident_id plan_id e s
  unfolding approved_event get
  runs_approved sound plan_id approver plan token s now inc same found at_inc current =
      signed_for_another env rt clocks sound (approved_event env plan approver (suc token)) s
        plan_id plan.id plan.incident_id approve approver (suc token) now inc refl (rw same refl)
        refl refl found at_inc (rw (current) refl)

  -- From the decision to its execution: when the decision endpoint approves a plan of an incident
  -- with a fencing token above 0, it publishes exactly one event, and an executor that handles
  -- that event while the plan and the incident's token still stand executes the plan: EXECUTING
  -- is published, and then exactly one of RESOLVED and ESCALATED unless it raises.
  pub approval_is_executed :
      (sound : IsSound env.crypto) (plan_id : ℕ) (approver : String) (db : Db env) (plan : PlanRow)
      (token : ℕ) (s : State env rt) (now : PlanRow) (inc : IncidentRow)
      → IsDecidable env plan_id "approved" db plan approve (suc token)
      → get_row (λ (p : PlanRow). p.id) plan_id s.db.plans ≡ some now
      → get_row (λ (i : IncidentRow). i.id) plan.incident_id s.db.incidents ≡ some inc
      → inc.fencing_token ≡ some (suc token)
      → (e : IncidentEvent env.crypto.Digest) × ((decide env plan_id "approved" approver db).2
          ≡ e ∷ [])
        × (start : IncidentEvent env.crypto.Digest) × (start.event_type
            ≡ IncidentEventType.executing)
        × (start.incident_id ≡ plan.incident_id)
        × Concluded
            (s.bus ++ start ∷ [])
            (handle_approved env rt clocks e s).0
            (handle_approved env rt clocks e s).1.bus
  approval_is_executed sound plan_id approver db plan token s now inc d found at_inc current =
      let e = approved_event env plan approver (suc token) in
      let published =
        (decide_effects env sound plan_id "approved" approver db plan approve (suc token) d).6
          refl in
      let executed =
        runs_approved sound plan_id approver plan token s now inc
          (get_row-key (λ (p : PlanRow). p.id) plan_id db.plans d.found) found at_inc current in
      let (start, typed, of_plan, names, ends) =
        execute_plan-Concluded inc plan.incident_id plan_id e s in
      (
        e,
        published,
        start,
        typed,
        of_plan,
        subst (λ (r : Handled × State env rt). Concluded (s.bus ++ start ∷ []) r.0 r.1.bus)
            (sym executed) ends,
      )
