-- ===== src/Store/Rows.antt =====
-- The rows of src/aegis_common/models.py and src/aegis_common/models_remediation.py.
use aegis_project.Prelude.{ℕ, String, Option, Bool, List}
use aegis_project.Prelude.Int.{ℤ}
use aegis_project.Json.{Json, Fields}
use aegis_project.Schemas.{Severity, SignalKind, IncidentStatus, Labels}
use aegis_project.Security.Signing.{Crypto}
use aegis_project.Audit.{Hasher, AuditRow}
use aegis_project.Orchestrator.State.{IncidentState}

pub record IncidentRow : Type 0 where
  pub id : ℕ
  pub status : IncidentStatus
  pub severity : Severity
  pub title : String
  pub services : List String
  pub fencing_token : Option ℕ
  pub version : ℕ
  pub opened_at : ℕ
  pub updated_at : ℕ
  pub resolved_at : Option ℕ

pub record SignalRow : Type 0 where
  pub id : ℕ
  pub incident_id : Option ℕ
  pub kind : SignalKind
  pub source : String
  pub service : String
  pub title : String
  pub description : String
  pub severity : Severity
  pub labels : Labels
  pub value : Option ℤ
  pub fingerprint : String
  pub observed_at : ℕ

pub record ActionCatalogRow : Type 0 where
  pub name : String
  pub description : String
  pub params_schema : Fields
  pub risk_tier : String
  pub requires_approval : Bool
  pub rollback_action : Option String
  pub enabled : Bool

pub record PolicyRow : Type 0 where
  pub environment : String
  pub mode : String

pub data PlanStatus : Type 0 where
  proposed approved rejected executing executed : PlanStatus

pub record PlanRow : Type 0 where
  pub id : ℕ
  pub incident_id : ℕ
  pub status : PlanStatus
  pub rationale : String
  pub requires_approval : Bool
  pub autonomy_allowed : Bool

pub data StepStatus : Type 0 where
  pending applied rolled_back failed : StepStatus

-- `params` is whatever JSON value the plan was proposed with.
pub record PlanStepRow : Type 0 where
  pub id : ℕ
  pub plan_id : ℕ
  pub ordinal : ℕ
  pub action : String
  pub params : Json
  pub risk_tier : String
  pub status : StepStatus

pub data Decision : Type 0 where
  approve reject : Decision

pub record ApprovalRow (Digest : Type 0) : Type 0 where
  pub plan_id : ℕ
  pub incident_id : ℕ
  pub decision : Decision
  pub approver : String
  pub fencing_token : ℕ
  pub signature : Digest

-- The text `f"{incident_id}:{step.id}:{fencing_token}"`, which determines its three parts.
pub record LedgerKey : Type 0 where
  pub incident : ℕ
  pub step : ℕ
  pub token : ℕ

pub record ActionLedgerRow : Type 0 where
  pub idempotency_key : LedgerKey
  pub action : String
  pub params : Json
  pub success : Bool
  pub detail : String

pub record WorkflowSnapshotRow : Type 0 where
  pub incident_id : ℕ
  pub state : IncidentState
  pub decision : String
  pub iterations : ℕ
  pub tokens_used : ℕ

-- What the program calls and does not implement: cryptography, hashing, Python's `int` on a text,
-- its text for a value in a message, and its text for a value that a loop cannot go through.
pub record Env : Type 1 where
  pub crypto : Crypto
  pub hasher : Hasher
  pub parse_int : String → Option ℤ
  pub sha256_text : String → String
  pub show : Json → String
  pub not_iterable : Json → String

pub record Db (env : Env) : Type 0 where
  pub incidents : List IncidentRow
  pub signals : List SignalRow
  pub catalog : List ActionCatalogRow
  pub policies : List PolicyRow
  pub plans : List PlanRow
  pub steps : List PlanStepRow
  pub approvals : List (ApprovalRow env.crypto.Digest)
  pub ledger : List ActionLedgerRow
  pub snapshots : List WorkflowSnapshotRow
  pub audit : List (AuditRow env.hasher)
