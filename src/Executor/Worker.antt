-- ===== src/Executor/Worker.antt =====
-- `handle_approved`, `_resolve` and `_escalate` of src/aegis_services/action_executor/worker.py.
use aegis_project.Prelude.{
  ℕ, zero, suc, ◌+◌, String, Bool, false, Option, none, some, List, [], if◌then◌else◌,
}
use aegis_project.Prelude.Int.{ℤ, pos, negsuc}
use aegis_project.Json.{Json, Fields, end, field, get, get_or, to_int, int_eq}
use aegis_project.Schemas.{IncidentStatus, ◌⧺◌}
use aegis_project.Events.{IncidentEvent, IncidentEventType, plain_event}
use aegis_project.Audit.{append_audit}
use aegis_project.Security.Signing.{verify_approval}
use aegis_project.Store.{Env, Db, IncidentRow, PlanRow, PlanStatus}
use aegis_project.Store.Lookup.{get_row, update_row}
use aegis_project.Pdp.Queries.{steps_of_plan}
use aegis_project.Executor.Runtime.{Runtime}
use aegis_project.Executor.State.{State, Clocks, publish}
use aegis_project.Executor.Saga.{End, completed, stopped, crashed, Applied, run_steps, rollback}

-- How the handler ended: it returned, or it raised.
pub data Handled : Type 0 where
  returned : Handled
  failed : Handled

-- `int(inc.fencing_token or -2)`
abbrev pub current_token : IncidentRow → ℤ
current_token inc = elim inc.fencing_token [
  | none ↦ negsuc 1
  | some zero ↦ negsuc 1
  | some (suc t) ↦ pos (suc t)
]

-- `int(inc.fencing_token or 0)`
abbrev pub token_or_zero : IncidentRow → ℕ
token_or_zero inc = elim inc.fencing_token [ none ↦ 0 | some t ↦ t ]

abbrev as_record : Json → Option Fields
as_record (Json.obj r) = some r
as_record _ = none

module _ (env : Env) where
  -- `verify_approval(record, signature)` on the event's data: a missing signature is the empty
  -- text, which is no digest, and only dictionaries are ever signed.
  unfoldable pub verified : Option Fields → Option env.crypto.Digest → Bool
  verified none signature = false
  verified (some r) none = false
  verified (some r) (some signature) = verify_approval env.crypto r signature

  abbrev pub event_record : IncidentEvent env.crypto.Digest → Option Fields
  unfolding get_or
  event_record e = as_record (get_or "record" (Json.obj end) e.payload)

  -- `int(record.get("fencing_token", -1))`
  unfoldable pub record_token : Option Fields → Option ℤ
  unfolding get_or to_int
  record_token none = none
  record_token (some r) = to_int env.parse_int (get_or "fencing_token" (Json.int (negsuc 0)) r)

module _ (env : Env) (rt : Runtime env.crypto) (clocks : Clocks) where
  -- `_escalate`
  unfoldable pub escalate : ℕ → String → State env rt → State env rt
  unfolding publish
  escalate incident_id reason s =
      publish
        (plain_event incident_id IncidentEventType.escalated
          (field "reason" (Json.text reason) end))
        s

  -- `_resolve`: the rows
  unfoldable pub resolve_rows : ℕ → ℕ → ℕ → Db env → Db env
  resolve_rows now incident_id plan_id db = record db {
    plans =
        update_row (λ (p : PlanRow). p.id) plan_id (λ p. record p { status = PlanStatus.executed })
          db.plans;
    incidents =
        update_row (λ (i : IncidentRow). i.id) incident_id
          (λ i. record i {
            status = IncidentStatus.resolved;
            version = i.version + 1;
            updated_at = now;
          })
          db.incidents;
    audit =
        append_audit env.hasher
          (record {
            actor = "action-executor";
            action = "incident.resolved";
            payload = field "plan_id" (Json.uuid plan_id) end;
            incident_id = some incident_id;
            trace_id = none;
          })
          db.audit;
  }

  -- `_resolve`
  unfoldable pub resolve : ℕ → ℕ → IncidentEvent env.crypto.Digest → State env rt → State env rt
  unfolding publish
  resolve incident_id plan_id e s =
      publish
        (plain_event incident_id IncidentEventType.resolved (
          field "plan_id" (Json.uuid plan_id) (
            field "resolution" (Json.text "auto-remediated")
              (field "root_cause" (get_or "root_cause" (Json.text "") e.payload) end))))
        (record s {
          db = resolve_rows (clocks.wall s.reads) incident_id plan_id s.db;
          reads = s.reads + 1;
        })

  -- What follows the loop.
  unfoldable pub finish :
      ℕ
      → ℕ
      → ℕ
      → IncidentEvent env.crypto.Digest
      → End × List Applied × State env rt
      → Handled × State env rt
  finish incident_id plan_id fencing e (completed, applied, s) =
      (returned, resolve incident_id plan_id e s)
  finish incident_id plan_id fencing e (stopped detail, applied, s) = (
    returned,
    escalate incident_id ("execution failed: " ⧺ detail)
        (rollback env rt clocks incident_id plan_id fencing applied s),
  )
  finish incident_id plan_id fencing e (crashed x, applied, s) = (failed, s)

  -- The plan is marked and the event EXECUTING published.
  unfoldable pub begin : IncidentRow → ℕ → ℕ → State env rt → State env rt
  unfolding publish
  begin inc incident_id plan_id s =
      publish
        (record {
          incident_id = incident_id;
          event_type = IncidentEventType.executing;
          fencing_token = inc.fencing_token;
          trace_id = none;
          payload = field "plan_id" (Json.uuid plan_id) end;
          signature = none;
        })
        (record s {
          db = record s.db {
            plans =
                update_row (λ (p : PlanRow). p.id) plan_id
                  (λ p. record p { status = PlanStatus.executing }) s.db.plans;
          };
        })

  -- The execution of a plan whose approval was accepted.
  unfoldable pub execute_plan :
      IncidentRow → ℕ → ℕ → IncidentEvent env.crypto.Digest → State env rt → Handled × State env rt
  execute_plan inc incident_id plan_id e s = finish incident_id plan_id (token_or_zero inc) e (
      run_steps env rt clocks incident_id plan_id (token_or_zero inc) s.db.catalog
        (steps_of_plan plan_id s.db.steps) [] (begin inc incident_id plan_id s))

  -- The check of the fencing token; a record whose token is no number makes `int` raise.
  unfoldable pub check_token :
      Option ℤ
      → IncidentRow
      → ℕ
      → ℕ
      → IncidentEvent env.crypto.Digest
      → State env rt
      → Handled × State env rt
  check_token none inc incident_id plan_id e s = (failed, s)
  check_token (some t) inc incident_id plan_id e s =
      if int_eq t (current_token inc)
      then execute_plan inc incident_id plan_id e s
      else (returned, escalate incident_id "stale fencing token; ownership superseded" s)

  -- The session that loads the plan and its incident.
  unfoldable pub load_plan :
      Option PlanRow
      → Option IncidentRow
      → ℕ
      → ℕ
      → IncidentEvent env.crypto.Digest
      → State env rt
      → Handled × State env rt
  load_plan (some plan) (some inc) incident_id plan_id e s =
      check_token (record_token env (event_record env e)) inc incident_id plan_id e s
  load_plan _ _ incident_id plan_id e s = (returned, s)

  -- The checks of an APPROVED event whose data names a plan; `UUID(...)` raises on anything else.
  unfoldable pub check_approval :
      Option Json → IncidentEvent env.crypto.Digest → State env rt → Handled × State env rt
  check_approval (some (Json.uuid plan_id)) e s =
      if verified env (event_record env e) e.signature
      then load_plan (get_row (λ (p : PlanRow). p.id) plan_id s.db.plans)
          (get_row (λ (i : IncidentRow). i.id) e.incident_id s.db.incidents) e.incident_id plan_id e
          s
      else (returned, escalate e.incident_id "approval signature verification failed" s)
  check_approval _ e s = (failed, s)

  unfoldable pub handle_approved :
      IncidentEvent env.crypto.Digest → State env rt → Handled × State env rt
  unfolding get
  handle_approved e s =
      let checked = check_approval (get "plan_id" e.payload) e s in
      elim e.event_type [ IncidentEventType.approved ↦ checked | _ ↦ (returned, s) ]
