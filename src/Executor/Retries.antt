-- ===== src/Executor/Retries.antt =====
-- What the ledger of src/aegis_services/action_executor/worker.py makes of a step that failed once:
-- the executions of `_execute_step` that follow, of that step and of others.
use aegis_project.Prelude.{
  ℕ, ◌+◌, ◌≡◌, inl, inr, refl, true, false, some, List, [], ◌∷◌, Bool-cases, Option-cases,
}
use aegis_project.Json.{Fields}
use aegis_project.Reliability.Breaker.{guard}
use aegis_project.Security.Signing.{Capability}
use aegis_project.Store.{Env, PlanStepRow, LedgerKey, ActionLedgerRow}
use aegis_project.Executor.Runtime.{ActionResult, Runtime, Attempt, done}
use aegis_project.Executor.State.{State, Clocks}
use aegis_project.Executor.Step.{
  ledger_row, find_entry, log_execution, commit_execution, attempt, execute_step,
}
use aegis_project.Executor.Idempotence.{find_entry-append, key_of}

-- One call of `_execute_step`.
pub record Execution (env : Env) : Type 0 where
  pub incident_id : ℕ
  pub step : PlanStepRow
  pub params : Fields
  pub cap : Capability env.crypto

module _ (env : Env) (rt : Runtime env.crypto) (clocks : Clocks) where
  abbrev pub execute : Execution env → State env rt → Attempt ActionResult × State env rt
  execute x s = execute_step env rt clocks x.incident_id x.step x.params x.cap s

  abbrev pub key_of_execution : Execution env → LedgerKey
  key_of_execution x = key_of env rt clocks x.incident_id x.step x.cap

  -- An execution that the breaker allows is applied to the target, and reports no success.
  abbrev pub InVain : Execution env → State env rt → Type 0
  InVain x s =
      let (r, t) = execute x s in
      ((result : ActionResult) → r ≡ done result → result.ok ≡ false)
      × ((guard (clocks.mono s.reads) s.breaker).0 ≡ true
          → t.target
            ≡ (rt.apply (clocks.wall (s.reads + 1)) x.step.action x.params x.cap s.target).1)

  -- Along a sequence of executions all those under one key are in vain, and the key's row of the
  -- ledger stays the given one.
  abbrev pub AllInVain : LedgerKey → ActionLedgerRow → List (Execution env) → State env rt → Type 0
  AllInVain k old [] s = find_entry k s.db.ledger ≡ some old
  AllInVain k old (x ∷ xs) s =
      (key_of_execution x ≡ k → InVain x s) × AllInVain k old xs (execute x s).1

  commit-find_entry :
      (k key : LedgerKey) (incident_id : ℕ) (step : PlanStepRow) (result : ActionResult)
      (s : State env rt) (old : ActionLedgerRow)
      → find_entry k s.db.ledger ≡ some old
      → find_entry k (commit_execution env rt clocks key incident_id step result s).1.db.ledger
        ≡ some old
  unfolding commit_execution log_execution
  commit-find_entry k key incident_id step result s old h =
      let row = ledger_row key step.action step.params result in
      elim (Option-cases (find_entry key s.db.ledger)) [
        | inl new ↦ rw new (find_entry-append k s.db.ledger (row ∷ []) old h)
        | inr (other, e) ↦ rw e h
      ]

  execute-find_entry :
      (k : LedgerKey) (x : Execution env) (s : State env rt) (old : ActionLedgerRow)
      → find_entry k s.db.ledger ≡ some old
      → find_entry k (execute x s).1.db.ledger ≡ some old
  unfolding execute_step attempt
  execute-find_entry k x s old h =
      elim (Option-cases (find_entry (key_of_execution x) s.db.ledger)) [
        | inl new ↦ elim (Bool-cases (guard (clocks.mono s.reads) s.breaker).0) [
          | inl allowed ↦
              rw (new, allowed)
                (commit-find_entry k (key_of_execution x) x.incident_id x.step _ _ old h)
          | inr rejected ↦ rw (new, rejected) h
        ]
        | inr (row, e) ↦ elim (Bool-cases row.success) [
          | inl good ↦ rw (e, good) h
          | inr bad ↦ elim (Bool-cases (guard (clocks.mono s.reads) s.breaker).0) [
            | inl allowed ↦
                rw (e, bad, allowed)
                  (commit-find_entry k (key_of_execution x) x.incident_id x.step _ _ old h)
            | inr rejected ↦ rw (e, bad, rejected) h
          ]
        ]
      ]

  retry-InVain :
      (x : Execution env) (s : State env rt) (old : ActionLedgerRow)
      → find_entry (key_of_execution x) s.db.ledger ≡ some old
      → old.success ≡ false
      → InVain x s
  unfolding execute_step attempt commit_execution
  retry-InVain x s old found failed = elim (Bool-cases (guard (clocks.mono s.reads) s.breaker).0) [
    | inl allowed ↦ rw (found, failed, allowed) (λ result e. cc, λ h. refl)
    | inr rejected ↦ rw (found, failed, rejected) (λ result e. cc, λ h. cc)
  ]

  -- A step that failed once under a token never succeeds under it again: where the ledger's row
  -- for the key is a failure, then along every sequence of executions, of this step and of any
  -- others, with any capabilities, no execution under the key reports success and the key's row
  -- stays the failure, although each one that the breaker allows is applied to the target.
  pub failed_once-AllInVain :
      (k : LedgerKey) (old : ActionLedgerRow)
      → old.success ≡ false
      → (xs : List (Execution env)) (s : State env rt) → find_entry k s.db.ledger ≡ some old
      → AllInVain k old xs s
  failed_once-AllInVain k old failed [] s found = found
  failed_once-AllInVain k old failed (x ∷ xs) s found = (
    λ same. retry-InVain x s old (rw same found) failed,
    failed_once-AllInVain k old failed xs (execute x s).1 (execute-find_entry k x s old found),
  )
