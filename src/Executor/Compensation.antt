-- ===== src/Executor/Compensation.antt =====
-- The saga of src/aegis_services/action_executor/worker.py: what `_rollback` does to the target,
-- to the steps and to the ledger.
use mathlib.Core.List.{reverse, reverse-cons, reverse-reverse, append_assoc}
use aegis_project.Prelude.{
  ℕ, ◌+◌, ◌*◌, ◌<◌, ◌≡◌, inl, inr, refl, ap, ◌∙◌, String, true, false, none, some, List, [], ◌∷◌,
  ◌++◌, arith, All, All-append, lt→ltb, eq_refl, Option-cases,
}
use aegis_project.Json.{Json, Fields, get, truthy, or_default}
use aegis_project.Security.Signing.{IsSound, Capability, is_valid, mint_credential}
use aegis_project.Security.Laws.{mint-is_valid}
use aegis_project.Store.{Env, PlanStepRow}
use aegis_project.Executor.Runtime.{
  Runtime, done, dry_run, dry_apply, DryLog, namespace_of, scope_ok,
}
use aegis_project.Executor.State.{State, Clocks}
use aegis_project.Executor.Step.{find_entry, succeeded, execute_step}
use aegis_project.Executor.Saga.{
  Applied, rollback_of, log_rollback, compensate, compensate_all, rollback,
}
use aegis_project.Executor.Idempotence.{key_of, skipped}

module _ (env : Env) (rt : Runtime env.crypto) (clocks : Clocks)
    (incident_id plan_id fencing : ℕ) where
  ledger-compensate :
      (a : Applied) (s : State env rt)
      → (compensate env rt clocks incident_id plan_id fencing a s).db.ledger ≡ s.db.ledger
  unfolding compensate log_rollback
  ledger-compensate a s = ground arith

  ledger-compensate_all :
      (as' : List Applied) (s : State env rt)
      → (compensate_all env rt clocks incident_id plan_id fencing as' s).db.ledger ≡ s.db.ledger
  unfolding compensate_all
  ledger-compensate_all [] s = refl
  ledger-compensate_all (a ∷ as') s =
      ledger-compensate_all as' (compensate env rt clocks incident_id plan_id fencing a s)
      ∙ ledger-compensate a s

  rollback_skipped :
      (applied : List Applied) (step : PlanStepRow) (params : Fields) (cap : Capability env.crypto)
      (s : State env rt)
      → succeeded (find_entry (key_of env rt clocks incident_id step cap) s.db.ledger) ≡ true
      → let t = rollback env rt clocks incident_id plan_id fencing applied s in
        execute_step env rt clocks incident_id step params cap t
        ≡ (done (record { ok = true; detail = "idempotent-skip" }), t)
  unfolding rollback
  rollback_skipped applied step params cap s h =
      skipped env rt clocks incident_id step params cap _
        (rw (ledger-compensate_all (reverse applied) s) h)

All-reverse {ℓ κ} : {A : Type ℓ} (P : A → Type κ) (xs : List A) → All P xs → All P (reverse xs)
All-reverse P [] h = tt
All-reverse P (x ∷ xs) h =
    rw reverse-cons (All-append P (reverse xs) (x ∷ []) (All-reverse P xs h.1) (h.0, tt))

-- Parameters with a textual namespace (or none) that do not ask for a failure.
pub record IsPlain (params : Fields) (namespace : String) : Type 0 where
  pub in_namespace : namespace_of params ≡ Json.text namespace
  pub unforced : truthy (or_default Json.null (get "_force_fail" params)) ≡ false

-- Each capability is used before its time to live is over.
pub record IsPrompt (clocks : Clocks) : Type 0 where
  pub within_ttl : (n : ℕ) → clocks.wall (n + 1) < clocks.wall n + 120 * 1000000

module _ (env : Env) (sound : IsSound env.crypto) (clocks : Clocks) (prompt : IsPrompt clocks) where
  scope_of_plain :
      (params : Fields) (ns : String) (cap : Capability env.crypto)
      → IsPlain params ns
      → cap.namespace ≡ namespace_of params
      → scope_ok params cap ≡ true
  unfolding scope_ok
  scope_of_plain params ns cap plain same = rw (same, plain.in_namespace) (eq_refl ns)

  -- A dry run under a fresh capability logs the action.
  dry_applies :
      (incident_id plan_id fencing n : ℕ) (action : String) (params : Fields) (ns : String)
      (log : DryLog env)
      → IsPlain params ns
      → (dry_apply env
          (clocks.wall (n + 1))
          action
          params
          (mint_credential env.crypto
            (clocks.wall n)
            incident_id
            plan_id
            fencing
            (namespace_of params)
            120)
          log).1
        ≡ (action, params) ∷ log
  unfolding dry_apply
  dry_applies incident_id plan_id fencing n action params ns log plain =
      let cap =
        mint_credential env.crypto (clocks.wall n) incident_id plan_id fencing (namespace_of params)
          120 in
      let valid : is_valid env.crypto (clocks.wall (n + 1)) cap ≡ true =
        mint-is_valid env.crypto sound (clocks.wall n) (clocks.wall (n + 1)) incident_id plan_id
          fencing (namespace_of params) 120
        ∙ lt→ltb _ _ (prompt.within_ttl n) in
      let same : cap.namespace ≡ namespace_of params = unfold mint_credential in refl in
      rw (valid, scope_of_plain params ns cap plain same, plain.unforced)

  -- What the compensation of applied steps adds to a dry run's log, the latest first: an entry for
  -- each step whose catalog entry has a rollback action, under that action.
  abbrev pub undo_log : List Applied → DryLog env
  undo_log [] = []
  undo_log (a ∷ as') = elim (rollback_of a.entry) [
    | none ↦ undo_log as'
    | some rb ↦ (rb, a.params) ∷ undo_log as'
  ]

  undo_log-append : (xs ys : List Applied) → undo_log (xs ++ ys) ≡ undo_log xs ++ undo_log ys
  undo_log-append [] ys = refl
  undo_log-append (a ∷ xs) ys = elim (Option-cases (rollback_of a.entry)) [
    | inl e ↦ rw (e, undo_log) (undo_log-append xs ys)
    | inr (rb, e) ↦ rw (e, undo_log) (ap (λ l. (rb, a.params) ∷ l) (undo_log-append xs ys))
  ]

  module _ (incident_id plan_id fencing : ℕ) where
    abbrev IsPlainStep : Applied → Type 0
    IsPlainStep a = (ns : String) × IsPlain a.params ns

    compensate_log :
        (a : Applied) (s : State env (dry_run env))
        → IsPlainStep a
        → (compensate env (dry_run env) clocks incident_id plan_id fencing a s).target
          ≡ undo_log (a ∷ []) ++ s.target
    unfolding compensate
    compensate_log a s (ns, plain) = elim (Option-cases (rollback_of a.entry)) [
      | inl e ↦ rw (e, compensate, undo_log)
      | inr (rb, e) ↦
          rw (e, compensate, undo_log)
            (dry_applies incident_id plan_id fencing s.reads rb a.params ns s.target plain)
    ]

    compensate_all_log :
        (as' : List Applied) (s : State env (dry_run env))
        → All IsPlainStep as'
        → (compensate_all env (dry_run env) clocks incident_id plan_id fencing as' s).target
          ≡ undo_log (reverse as') ++ s.target
    unfolding compensate_all
    compensate_all_log [] s h = refl
    compensate_all_log (a ∷ as') s h =
        compensate_all_log as' (compensate env (dry_run env) clocks incident_id plan_id fencing a s)
          h.1
        ∙ rw (compensate_log a s h.0) (rw (reverse-cons, undo_log-append, append_assoc))

    -- On a dry run with plain parameters and capabilities used within their time to live, the
    -- rollback runs the compensation of every applied step that has one, each once and in the
    -- reverse of the order of application, and nothing else: the log gains exactly these entries.
    pub rollback_log :
        (applied : List Applied) (s : State env (dry_run env))
        → All IsPlainStep applied
        → (rollback env (dry_run env) clocks incident_id plan_id fencing applied s).target
          ≡ undo_log applied ++ s.target
    unfolding rollback
    rollback_log applied s h =
        compensate_all_log (reverse applied) s (All-reverse IsPlainStep applied h)
        ∙ rw reverse-reverse

    -- A step that was applied with success and then rolled back on a dry run with plain
    -- parameters and capabilities used within their time to live: its compensation is in the
    -- target's log, between those of the steps before and after it, and yet, when the step is
    -- executed again under the same token, it is reported as applied and nothing changes: the
    -- ledger still shows its success.
    pub rolled_back_is_skipped :
        (before later : List Applied) (a : Applied) (rb : String) (cap : Capability env.crypto)
        (s : State env (dry_run env))
        → All IsPlainStep (before ++ a ∷ later)
        → rollback_of a.entry ≡ some rb
        → succeeded
            (find_entry (key_of env (dry_run env) clocks incident_id a.step cap) s.db.ledger)
          ≡ true
        → let applied = before ++ a ∷ later in
          let t = rollback env (dry_run env) clocks incident_id plan_id fencing applied s in
          (t.target ≡ (undo_log before ++ (rb, a.params) ∷ undo_log later) ++ s.target)
          × (execute_step env (dry_run env) clocks incident_id a.step a.params cap t
              ≡ (done (record { ok = true; detail = "idempotent-skip" }), t))
    rolled_back_is_skipped before later a rb cap s plain e h = (
      rollback_log (before ++ a ∷ later) s plain
          ∙ ap (λ l. l ++ s.target)
              (undo_log-append before (a ∷ later)
                ∙ ap (λ l. undo_log before ++ l) (rw (e, undo_log))),
      rollback_skipped env (dry_run env) clocks incident_id plan_id fencing (before ++ a ∷ later)
          a.step a.params cap s h,
    )
