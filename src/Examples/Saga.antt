-- ===== src/Examples/Saga.antt =====
-- The theorems on the execution of steps at concrete values.
use aegis_project.Prelude.{◌≡◌, sym, refl, true, false, some, [], ◌∷◌, ◌++◌, arith}
use aegis_project.Json.{get, get_or}
use aegis_project.Schemas.{◌⧺◌}
use aegis_project.Security.Signing.{
  is_valid, verify_approval, mint_credential, sign_approval, capability_record,
}
use mathlib.Core.List.{append-nil}
use aegis_project.Examples.Fixtures.{same_fields}
use aegis_project.Store.{ActionLedgerRow}
use aegis_project.Reliability.Breaker.{guard, new_breaker}
use aegis_project.Executor.Runtime.{Attempt, done, dry_apply, ActionResult}
use aegis_project.Executor.State.{State}
use aegis_project.Executor.Step.{
  execute_step, attempt, commit_execution, find_entry, succeeded, ledger_row,
}
use aegis_project.Executor.Saga.{Applied, rollback_of, rollback}
use aegis_project.Executor.Idempotence.{key_of, applied_once}
use aegis_project.Executor.Retries.{Execution, AllInVain, failed_once-AllInVain}
use aegis_project.Executor.Compensation.{
  rolled_back_is_skipped, rollback_log, IsPlain, IsPrompt, undo_log,
}
use aegis_project.Examples.Fixtures.{
  env, plain_crypto-IsSound, params, step, entry, db, clocks, runtime, state, capability,
}

-- What executing the step once gives.
abbrev once : Attempt ActionResult × State env runtime
once = execute_step env runtime clocks 3 step params capability state

-- The ledger that shows an earlier failure of the step.
abbrev failure_row : ActionLedgerRow
failure_row =
    ledger_row (key_of env runtime clocks 3 step capability) step.action step.params
      (record { ok = false; detail = "timeout" })

abbrev failed_before : State env runtime
failed_before = record state { db = record db { ledger = failure_row ∷ [] } }

abbrev done_before : State env runtime
done_before = record state {
  db = record db {
    ledger =
        ledger_row (key_of env runtime clocks 3 step capability) step.action step.params
          (record { ok = true; detail = "" })
        ∷ [];
  };
}

abbrev first_result : ActionResult
first_result = record {
  ok = true;
  detail = "dry-run ok: " ⧺ "restart_deployment" ⧺ "(" ⧺ "value" ⧺ ")";
}

once_done : once.0 ≡ done first_result
unfolding execute_step attempt commit_execution find_entry guard new_breaker dry_apply is_valid
    verify_approval same_fields mint_credential sign_approval capability_record
once_done = refl

applied_once_example :
    execute_step env runtime clocks 3 step params capability once.1
    ≡ (done (record { ok = true; detail = "idempotent-skip" }), once.1)
applied_once_example =
    applied_once env runtime clocks 3 step params params capability capability state once.1
      first_result [] once_done refl refl (sym (append-nil _))

found_failure :
    find_entry (key_of env runtime clocks 3 step capability) failed_before.db.ledger
    ≡ some failure_row
unfolding find_entry mint_credential
found_failure = refl

breaker_allows : (guard (clocks.mono failed_before.reads) failed_before.breaker).0 ≡ true
unfolding guard new_breaker
breaker_allows = refl

-- Two retries of the step.
abbrev retry : Execution env
retry = record { incident_id = 3; step = step; params = params; cap = capability }

failed_once-AllInVain_example :
    AllInVain env runtime clocks
      (key_of env runtime clocks 3 step capability)
      failure_row
      (retry ∷ retry ∷ [])
      failed_before
failed_once-AllInVain_example =
    failed_once-AllInVain env runtime clocks (key_of env runtime clocks 3 step capability)
      failure_row refl (retry ∷ retry ∷ []) failed_before found_failure

abbrev applied_step : Applied
applied_step = record { step = step; params = params; entry = entry }

success_there :
    succeeded (find_entry (key_of env runtime clocks 3 step capability) done_before.db.ledger)
    ≡ true
unfolding find_entry mint_credential
success_there = refl

prompt : IsPrompt clocks
prompt = record { within_ttl = λ n. omega arith }

IsPlain-params : IsPlain params "default"
unfolding get_or get
IsPlain-params = record { in_namespace = refl; unforced = refl }

rollback_log_example :
    (rollback env runtime clocks 3 7 5 (applied_step ∷ []) state).target
    ≡ undo_log env plain_crypto-IsSound clocks prompt (applied_step ∷ []) ++ state.target
rollback_log_example =
    rollback_log env plain_crypto-IsSound clocks prompt 3 7 5 (applied_step ∷ []) state
      (("default", IsPlain-params), tt)

has_rollback : rollback_of applied_step.entry ≡ some "rollback_revision"
has_rollback = refl

rolled_back_is_skipped_example :
    let t = rollback env runtime clocks 3 7 5 (applied_step ∷ []) done_before in
    (t.target ≡ ("rollback_revision", params) ∷ done_before.target)
    × (execute_step env runtime clocks 3 step params capability t
        ≡ (done (record { ok = true; detail = "idempotent-skip" }), t))
rolled_back_is_skipped_example =
    rolled_back_is_skipped env plain_crypto-IsSound clocks prompt 3 7 5 [] [] applied_step
      "rollback_revision" capability done_before (("default", IsPlain-params), tt) has_rollback
      success_there
