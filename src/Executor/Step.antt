-- ===== src/Executor/Step.antt =====
-- `_execute_step` of src/aegis_services/action_executor/worker.py.
use aegis_project.Prelude.{
  ℕ, ◌+◌, String, Bool, true, false, ◌&&◌, Option, none, some, List, [], ◌∷◌, ◌++◌, ◌==◌,
  if◌then◌else◌,
}
use aegis_project.Json.{Json, Fields, end, field}
use aegis_project.Audit.{append_audit}
use aegis_project.Reliability.Breaker.{guard, record_success, record_failure}
use aegis_project.Security.Signing.{Capability}
use aegis_project.Store.{Env, Db, PlanStepRow, LedgerKey, ActionLedgerRow}
use aegis_project.Executor.Runtime.{ActionResult, Runtime, Attempt, done, raised}
use aegis_project.Executor.State.{State, Clocks}

abbrev pub key_eq : LedgerKey → LedgerKey → Bool
key_eq a b = a.incident == b.incident && a.step == b.step && a.token == b.token

-- `scalar_one_or_none` on the unique key
unfoldable pub find_entry : LedgerKey → List ActionLedgerRow → Option ActionLedgerRow
find_entry k [] = none
find_entry k (r ∷ rs) = if key_eq r.idempotency_key k then some r else find_entry k rs

abbrev pub succeeded : Option ActionLedgerRow → Bool
succeeded none = false
succeeded (some r) = r.success

abbrev pub is_new : Option ActionLedgerRow → Bool
is_new none = true
is_new (some r) = false

-- `ActionLedgerRow(...)`
abbrev pub ledger_row : LedgerKey → String → Json → ActionResult → ActionLedgerRow
ledger_row key action params result = record {
  idempotency_key = key;
  action = action;
  params = params;
  success = result.ok;
  detail = result.detail;
}

module _ (env : Env) where
  -- The ledger row and the audit record of one execution.
  unfoldable pub log_execution : LedgerKey → ℕ → String → Json → ActionResult → Db env → Db env
  log_execution key incident_id action params result db = record db {
    ledger = db.ledger ++ ledger_row key action params result ∷ [];
    audit =
        append_audit env.hasher
          (record {
            actor = "action-executor";
            action = if result.ok then "action.applied" else "action.failed";
            payload =
                field "action" (Json.text action) (field "detail" (Json.text result.detail) end);
            incident_id = some incident_id;
            trace_id = none;
          })
          db.audit;
  }

module _ (env : Env) (rt : Runtime env.crypto) (clocks : Clocks) where
  -- The last session. A key that the ledger has already makes the flush fail: the handler passes
  -- over that error, but the commit of the failed session raises, and the session is rolled back.
  unfoldable pub commit_execution :
      LedgerKey
      → ℕ
      → PlanStepRow
      → ActionResult
      → State env rt
      → Attempt ActionResult × State env rt
  commit_execution key incident_id step result s =
      if is_new (find_entry key s.db.ledger)
      then (
        done result,
        record s { db = log_execution env key incident_id step.action step.params result s.db },
      )
      else (raised "PendingRollbackError", s)

  -- The call of the runtime under the breaker.
  unfoldable pub attempt :
      LedgerKey
      → ℕ
      → PlanStepRow
      → Fields
      → Capability env.crypto
      → State env rt
      → Attempt ActionResult × State env rt
  attempt key incident_id step params cap s =
      let (allowed, b) = guard (clocks.mono s.reads) s.breaker in
      let (result, target) = rt.apply (clocks.wall (s.reads + 1)) step.action params cap s.target in
      let b' =
        if result.ok then record_success b else record_failure (clocks.mono (s.reads + 2)) b in
      if allowed
      then commit_execution key incident_id step result
          (record s { breaker = b'; target = target; reads = s.reads + 3 })
      else (
        done (record { ok = false; detail = "infra circuit open: circuit 'infra' is open" }),
        record s { breaker = b; reads = s.reads + 1 },
      )

  -- `_execute_step`, on parameters that were checked to be an object
  unfoldable pub execute_step :
      ℕ
      → PlanStepRow
      → Fields
      → Capability env.crypto
      → State env rt
      → Attempt ActionResult × State env rt
  execute_step incident_id step params cap s =
      let key : LedgerKey = record {
        incident = incident_id;
        step = step.id;
        token = cap.fencing_token;
      } in
      if succeeded (find_entry key s.db.ledger)
      then (done (record { ok = true; detail = "idempotent-skip" }), s)
      else attempt key incident_id step params cap s
