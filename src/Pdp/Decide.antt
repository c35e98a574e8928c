-- ===== src/Pdp/Decide.antt =====
-- `decide` of src/aegis_services/policy_approval/app.py: `POST /v1/plans/{plan_id}/decision`.
use aegis_project.Prelude.{
  ℕ, String, Option, none, some, List, [], ◌∷◌, ◌++◌, str_eq, if◌then◌else◌,
}
use aegis_project.Prelude.Int.{pos}
use aegis_project.Json.{Json, Fields, end, field}
use aegis_project.Schemas.{◌⧺◌}
use aegis_project.Events.{IncidentEvent, IncidentEventType}
use aegis_project.Security.Signing.{sign_approval}
use aegis_project.Audit.{append_audit}
use aegis_project.Store.{Env, Db, IncidentRow, PlanStatus, PlanRow, Decision, approve, reject}
use aegis_project.Store.Lookup.{get_row, update_row}
use aegis_project.Http.{Response, ok, http, server_error}

-- The texts of `body.decision`; the handler refuses any other.
unfoldable pub parse_decision : String → Option Decision
parse_decision s =
    if str_eq s "approved" then some approve else if str_eq s "rejected" then some reject else none

abbrev pub decision_value : Decision → String
decision_value approve = "approved"
decision_value reject = "rejected"

abbrev pub status_after : Decision → PlanStatus
status_after approve = PlanStatus.approved
status_after reject = PlanStatus.rejected

-- The dictionary that is signed.
unfoldable pub approval_record : ℕ → ℕ → Decision → String → ℕ → Fields
approval_record plan_id incident_id decision approver fencing =
    field "plan_id" (Json.uuid plan_id) (
      field "incident_id" (Json.uuid incident_id) (
        field "decision" (Json.text (decision_value decision)) (
          field "approver" (Json.text approver)
            (field "fencing_token" (Json.int (pos fencing)) end))))

-- `inc.fencing_token if inc else 0`
abbrev pub fencing_of : Option IncidentRow → Option ℕ
fencing_of none = some 0
fencing_of (some inc) = inc.fencing_token

-- What a handler gives back: its response, the database and what was published.
abbrev pub Outcome : Env → Type 0
Outcome env = Response PlanStatus × Db env × List (IncidentEvent env.crypto.Digest)

module _ (env : Env) where
  -- The rows that a decision writes.
  unfoldable pub record_decision : PlanRow → Decision → String → ℕ → Db env → Db env
  unfolding sign_approval
  record_decision plan decision approver fencing db = record db {
    approvals =
        db.approvals
        ++ record {
          plan_id = plan.id;
          incident_id = plan.incident_id;
          decision = decision;
          approver = approver;
          fencing_token = fencing;
          signature =
              sign_approval env.crypto
                (approval_record plan.id plan.incident_id decision approver fencing);
        }
          ∷ [];
    plans =
        update_row (λ (p : PlanRow). p.id) plan.id
          (λ p. record p { status = status_after decision }) db.plans;
    audit =
        append_audit env.hasher
          (record {
            actor = "human:" ⧺ approver;
            action = "plan." ⧺ decision_value decision;
            payload =
                field "plan_id" (Json.uuid plan.id)
                  (field "fencing_token" (Json.int (pos fencing)) end);
            incident_id = some plan.incident_id;
            trace_id = none;
          })
          db.audit;
  }

  -- The event that requests the execution of an approved plan.
  unfoldable pub approved_event : PlanRow → String → ℕ → IncidentEvent env.crypto.Digest
  unfolding sign_approval
  approved_event plan approver fencing =
      let signed = approval_record plan.id plan.incident_id approve approver fencing in
      record {
        incident_id = plan.incident_id;
        event_type = IncidentEventType.approved;
        fencing_token = some fencing;
        trace_id = none;
        payload =
            field "plan_id" (Json.uuid plan.id)
              (field "approver" (Json.text approver) (field "record" (Json.obj signed) end));
        signature = some (sign_approval env.crypto signed);
      }

  -- What is published on a decision.
  unfoldable pub requests : PlanRow → Decision → String → ℕ → List (IncidentEvent env.crypto.Digest)
  unfolding approved_event
  requests plan approve approver fencing = approved_event plan approver fencing ∷ []
  requests plan reject approver fencing = []

  -- The session with the fencing token read: a missing token violates the column of the approval,
  -- and the session is rolled back.
  unfoldable pub decide_fenced : PlanRow → Decision → String → Option ℕ → Db env → Outcome env
  decide_fenced plan decision approver none db = (server_error, db, [])
  decide_fenced plan decision approver (some fencing) db = (
    ok (status_after decision),
    record_decision plan decision approver fencing db,
    requests plan decision approver fencing,
  )

  -- The session on the plan that was found.
  unfoldable pub decide_plan : Option PlanRow → Decision → String → Db env → Outcome env
  unfolding decide_fenced
  decide_plan none decision approver db = (http 404, db, [])
  decide_plan (some plan) decision approver db =
      let fenced =
        decide_fenced plan decision approver
          (fencing_of (get_row (λ (i : IncidentRow). i.id) plan.incident_id db.incidents)) db in
      elim plan.status [ PlanStatus.proposed ↦ fenced | _ ↦ (http 409, db, []) ]

  unfoldable pub decide_parsed : Option Decision → ℕ → String → Db env → Outcome env
  unfolding decide_plan
  decide_parsed none plan_id approver db = (http 400, db, [])
  decide_parsed (some decision) plan_id approver db =
      decide_plan (get_row (λ (p : PlanRow). p.id) plan_id db.plans) decision approver db

  unfoldable pub decide : ℕ → String → String → Db env → Outcome env
  unfolding decide_parsed
  decide plan_id decision approver db = decide_parsed (parse_decision decision) plan_id approver db
