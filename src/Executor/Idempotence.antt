-- ===== src/Executor/Idempotence.antt =====
-- The execution ledger of src/aegis_services/action_executor/worker.py: what `_execute_step` does
-- when it is called again with the same key.
use aegis_project.Prelude.{
  ℕ, ◌≡◌, inl, inr, refl, true, false, none, some, List, [], ◌∷◌, ◌++◌, arith, Bool-cases,
  Option-cases,
}
use aegis_project.Json.{Fields}
use aegis_project.Reliability.Breaker.{guard}
use aegis_project.Security.Signing.{Capability}
use aegis_project.Store.{Env, PlanStepRow, LedgerKey, ActionLedgerRow}
use aegis_project.Executor.Runtime.{ActionResult, Runtime, done}
use aegis_project.Executor.State.{State, Clocks}
use aegis_project.Executor.Step.{
  key_eq, ledger_row, find_entry, succeeded, log_execution, commit_execution, attempt, execute_step,
}

pub find_entry-append :
    (k : LedgerKey) (xs ys : List ActionLedgerRow) (r : ActionLedgerRow)
    → find_entry k xs ≡ some r
    → find_entry k (xs ++ ys) ≡ some r
unfolding find_entry
find_entry-append k [] ys r h = cc
find_entry-append k (x ∷ xs) ys r h = ground (arith, find_entry-append k xs ys r)

find_entry-snoc :
    (k : LedgerKey) (xs : List ActionLedgerRow) (r : ActionLedgerRow)
    → find_entry k xs ≡ none
    → key_eq r.idempotency_key k ≡ true
    → find_entry k (xs ++ r ∷ []) ≡ some r
unfolding find_entry
find_entry-snoc k [] r h e = ground arith
find_entry-snoc k (x ∷ xs) r h e = ground (arith, find_entry-snoc k xs r)

-- No two rows of the ledger have one key.
abbrev pub Unique : List ActionLedgerRow → Type 0
Unique [] = Unit
Unique (r ∷ rs) = (find_entry r.idempotency_key rs ≡ none) × Unique rs

find_entry-snoc_ne :
    (k : LedgerKey) (xs : List ActionLedgerRow) (r : ActionLedgerRow)
    → find_entry k xs ≡ none
    → key_eq r.idempotency_key k ≡ false
    → find_entry k (xs ++ r ∷ []) ≡ none
unfolding find_entry
find_entry-snoc_ne k [] r h e = ground arith
find_entry-snoc_ne k (x ∷ xs) r h e = ground (arith, find_entry-snoc_ne k xs r)

Unique-snoc :
    (xs : List ActionLedgerRow) (r : ActionLedgerRow)
    → Unique xs
    → find_entry r.idempotency_key xs ≡ none
    → Unique (xs ++ r ∷ [])
unfolding find_entry
Unique-snoc [] r u h = (refl, tt)
Unique-snoc (x ∷ xs) r u h = (
  find_entry-snoc_ne x.idempotency_key xs r u.0 (ground arith),
  Unique-snoc xs r u.1 (ground arith),
)

module _ (env : Env) (rt : Runtime env.crypto) (clocks : Clocks) where
  -- The key of a step under a capability.
  abbrev pub key_of : ℕ → PlanStepRow → Capability env.crypto → LedgerKey
  key_of incident_id step cap = record {
    incident = incident_id;
    step = step.id;
    token = cap.fencing_token;
  }

  commit-Unique :
      (key : LedgerKey) (incident_id : ℕ) (step : PlanStepRow) (result : ActionResult)
      (s : State env rt)
      → Unique s.db.ledger
      → Unique (commit_execution env rt clocks key incident_id step result s).1.db.ledger
  unfolding commit_execution log_execution
  commit-Unique key incident_id step result s u =
      let row = ledger_row key step.action step.params result in
      elim (Option-cases (find_entry key s.db.ledger)) [
        | inl new ↦ rw new (Unique-snoc s.db.ledger row u new)
        | inr (old, e) ↦ rw e u
      ]

  -- Executing a step never gives the ledger two rows with one key.
  pub execute_step-Unique :
      (incident_id : ℕ) (step : PlanStepRow) (params : Fields) (cap : Capability env.crypto)
      (s : State env rt)
      → Unique s.db.ledger
      → Unique (execute_step env rt clocks incident_id step params cap s).1.db.ledger
  unfolding execute_step attempt
  execute_step-Unique incident_id step params cap s u =
      elim (Bool-cases (succeeded (find_entry (key_of incident_id step cap) s.db.ledger))) [
        | inl skip ↦ rw skip u
        | inr go ↦ elim (Bool-cases (guard (clocks.mono s.reads) s.breaker).0) [
          | inl allowed ↦
              rw (go, allowed) (commit-Unique (key_of incident_id step cap) incident_id step _ _ u)
          | inr rejected ↦ rw (go, rejected) u
        ]
      ]

  commit_logged :
      (key : LedgerKey) (incident_id : ℕ) (step : PlanStepRow) (result r : ActionResult)
      (s : State env rt)
      → (commit_execution env rt clocks key incident_id step result s).0 ≡ done r
      → r.ok ≡ true
      → succeeded (
          find_entry key (commit_execution env rt clocks key incident_id step result s).1.db.ledger)
        ≡ true
  unfolding commit_execution log_execution
  commit_logged key incident_id step result r s h good =
      let row = ledger_row key step.action step.params result in
      elim (Option-cases (find_entry key s.db.ledger)) [
        | inl new ↦ ground (arith, find_entry-snoc key s.db.ledger row new)
        | inr (old, e) ↦ absurd (ground arith)
      ]

  pub success_logged :
      (incident_id : ℕ) (step : PlanStepRow) (params : Fields) (cap : Capability env.crypto)
      (s : State env rt) (r : ActionResult)
      → (execute_step env rt clocks incident_id step params cap s).0 ≡ done r
      → r.ok ≡ true
      → succeeded (
          find_entry
            (key_of incident_id step cap)
            (execute_step env rt clocks incident_id step params cap s).1.db.ledger)
        ≡ true
  unfolding execute_step attempt
  success_logged incident_id step params cap s r h good =
      elim (Bool-cases (succeeded (find_entry (key_of incident_id step cap) s.db.ledger))) [
        | inl skip ↦ rw (skip, skip)
        | inr go ↦ elim (Bool-cases (guard (clocks.mono s.reads) s.breaker).0) [
          | inl allowed ↦
              rw (go, allowed)
                (commit_logged (key_of incident_id step cap) incident_id step _ r _
                  (rw (go, allowed) at h) good)
          | inr rejected ↦ absurd (ground arith)
        ]
      ]

  -- A step that the ledger has with success is skipped.
  pub skipped :
      (incident_id : ℕ) (step : PlanStepRow) (params : Fields) (cap : Capability env.crypto)
      (s : State env rt)
      → succeeded (find_entry (key_of incident_id step cap) s.db.ledger) ≡ true
      → execute_step env rt clocks incident_id step params cap s
        ≡ (done (record { ok = true; detail = "idempotent-skip" }), s)
  unfolding execute_step
  skipped incident_id step params cap s h = rw h

  succeeded-append :
      (k : LedgerKey) (xs ys : List ActionLedgerRow)
      → succeeded (find_entry k xs) ≡ true
      → succeeded (find_entry k (xs ++ ys)) ≡ true
  succeeded-append k xs ys h = elim (Option-cases (find_entry k xs)) [
    | inl e ↦ absurd (ground arith)
    | inr (r, e) ↦ rw (find_entry-append k xs ys r e) (rw e at h)
  ]

  -- After a step was executed with success, every later execution of it for the same incident and
  -- under the same fencing token, from any state whose ledger only grew, reports success and
  -- changes nothing, the target least of all.
  pub applied_once :
      (incident_id : ℕ) (step : PlanStepRow) (params params' : Fields)
      (cap cap' : Capability env.crypto) (s t : State env rt) (r : ActionResult)
      (later : List ActionLedgerRow)
      → (execute_step env rt clocks incident_id step params cap s).0 ≡ done r
      → r.ok ≡ true
      → cap'.fencing_token ≡ cap.fencing_token
      → t.db.ledger
        ≡ (execute_step env rt clocks incident_id step params cap s).1.db.ledger ++ later
      → execute_step env rt clocks incident_id step params' cap' t
        ≡ (done (record { ok = true; detail = "idempotent-skip" }), t)
  applied_once incident_id step params params' cap cap' s t r later h good same grown =
      skipped incident_id step params' cap' t (
        rw (same, grown)
          (succeeded-append (key_of incident_id step cap) _ later
            (success_logged incident_id step params cap s r h good)))
