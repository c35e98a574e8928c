-- ===== src/Orchestrator/Outcome.antt =====
-- What `_persist_and_emit` of src/aegis_services/orchestrator/worker.py writes: an incident has at
-- most the plan that was proposed last, and the event that is published goes with it.
use mathlib.Core.List.{append-nil}
use aegis_project.Prelude.{
  ℕ, ◌+◌, ◌≡◌, ◌≢◌, ◌⊎◌, inl, inr, refl, ◌∙◌, String, true, false, Option, none, some, List, [],
  ◌∷◌, ◌++◌, arith, keep, ◌==◌, Bool-cases,
}
use aegis_project.Json.{Json, Items, nil, cons, or_default}
use aegis_project.Events.{IncidentEvent}
use aegis_project.Store.{Env, Db, PlanRow, proposed, PlanStepRow}
use aegis_project.Orchestrator.State.{IncidentState}
use aegis_project.Orchestrator.Graph.{or_false}
use aegis_project.Orchestrator.Rows.{
  gives_up, cons_row, step_rows, step_row, items_of, as_text, other_plans, other_steps, plan_row,
  Fresh,
}
use aegis_project.Orchestrator.Persist.{
  Written, with_steps, escalated_event, proposed_event, persist, propose, write_plan,
  write_escalation,
}
use aegis_project.Orchestrator.Ensures.{Holds}

-- The plans of an incident.
abbrev pub plans_of : ℕ → List PlanRow → List PlanRow
plans_of id rows = keep (λ (p : PlanRow). p.incident_id == id) rows

plans_of-other_plans_self : (id : ℕ) (rows : List PlanRow) → plans_of id (other_plans id rows) ≡ []
unfolding other_plans
plans_of-other_plans_self id [] = refl
plans_of-other_plans_self id (p ∷ rows) = ground (arith, plans_of-other_plans_self id rows)

plans_of-other_plans_ne :
    (id j : ℕ) (rows : List PlanRow) → j ≢ id → plans_of j (other_plans id rows) ≡ plans_of j rows
unfolding other_plans
plans_of-other_plans_ne id j [] ne = refl
plans_of-other_plans_ne id j (p ∷ rows) ne = ground (arith, plans_of-other_plans_ne id j rows)

keep_append :
    (j : ℕ) (rows : List PlanRow) (p : PlanRow)
    → plans_of j (rows ++ p ∷ []) ≡ plans_of j rows ++ plans_of j (p ∷ [])
keep_append j [] p = refl
keep_append j (q ∷ rows) p = ground (arith, keep_append j rows p)

-- The steps of a plan, numbered from a place on.
abbrev pub StepsOf : ℕ → ℕ → List PlanStepRow → Type 0
StepsOf plan_id i [] = Unit
StepsOf plan_id i (s ∷ ss) = (s.plan_id ≡ plan_id) × (s.ordinal ≡ i) × StepsOf plan_id (i + 1) ss

cons_row-StepsOf :
    (plan_id i : ℕ) (o : Option PlanStepRow) (os : Option (List PlanStepRow))
    → Holds (λ (r : PlanStepRow). (r.plan_id ≡ plan_id) × (r.ordinal ≡ i)) o
    → Holds (StepsOf plan_id (i + 1)) os
    → Holds (StepsOf plan_id i) (cons_row o os)
cons_row-StepsOf plan_id i (some r) (some rs) h k = (h.0, h.1, k)
cons_row-StepsOf plan_id i (some r) none h k = tt
cons_row-StepsOf plan_id i none os h k = tt

step_row-Holds :
    (ids : ℕ → ℕ) (plan_id : ℕ) (tiers : List (String × String)) (i : ℕ) (x : Json)
    → Holds
        (λ (r : PlanStepRow). (r.plan_id ≡ plan_id) × (r.ordinal ≡ i))
        (step_row ids plan_id tiers i x)
unfolding step_row
step_row-Holds ids plan_id tiers i (Json.obj d) = ground arith
step_row-Holds ids plan_id tiers i _ = tt

step_rows-StepsOf :
    (ids : ℕ → ℕ) (plan_id : ℕ) (tiers : List (String × String)) (i : ℕ) (xs : Items)
    → Holds (StepsOf plan_id i) (step_rows ids plan_id tiers i xs)
unfolding step_rows
step_rows-StepsOf ids plan_id tiers i nil = tt
step_rows-StepsOf ids plan_id tiers i (cons x xs) =
    cons_row-StepsOf plan_id i _ _ (step_row-Holds ids plan_id tiers i x)
      (step_rows-StepsOf ids plan_id tiers (i + 1) xs)

module _ (env : Env) (fresh : Fresh) (id : ℕ) (event : IncidentEvent env.crypto.Digest)
    (final : IncidentState) (db : Db env) where
  -- The plan tables are as they were, and the event escalates.
  pub record Escalated (db' : Db env) (out : IncidentEvent env.crypto.Digest) : Type 0 where
    pub gave_up : gives_up final ≡ true
    pub same_plans : db'.plans ≡ db.plans
    pub same_steps : db'.steps ≡ db.steps
    pub published : out ≡ escalated_event env fresh id event final

  -- The incident has one plan, which awaits a decision, with numbered steps; no other incident's
  -- plans are touched, and the event proposes it.
  pub record Proposed (db' : Db env) (out : IncidentEvent env.crypto.Digest) : Type 0 where
    pub kept : gives_up final ≡ false
    pub plan : PlanRow
    pub steps : List PlanStepRow
    pub only_plan : plans_of id db'.plans ≡ plan ∷ []
    pub other_incidents : (j : ℕ) → j ≢ id → plans_of j db'.plans ≡ plans_of j db.plans
    pub steps_after : db'.steps ≡ other_steps id db.plans db.steps ++ steps
    pub numbered : StepsOf plan.id 0 steps
    pub open_plan : plan.status ≡ proposed
    pub autonomy : plan.autonomy_allowed ≡ or_false final.autonomy_allowed
    pub approval :
        plan.requires_approval ≡ elim final.requires_approval [ none ↦ true | some b ↦ b ]
    pub published : out ≡ proposed_event env fresh id event final plan

  abbrev pub Emitted : Written env fresh → Type 0
  Emitted none = Unit
  Emitted (some (db', out)) = Escalated db' out ⊎ Proposed db' out

  with_steps-Emitted :
      (rationale : String) (xs : Items) (o : Option (List PlanStepRow))
      → gives_up final ≡ false
      → Holds (StepsOf fresh.plan_id 0) o
      → Emitted
          (with_steps env fresh id event final (plan_row fresh.plan_id id rationale final) xs db o)
  unfolding with_steps write_plan plan_row
  with_steps-Emitted rationale xs none g h = tt
  with_steps-Emitted rationale xs (some steps) g h = inr (record {
    kept = g;
    plan = plan_row fresh.plan_id id rationale final;
    steps = steps;
    only_plan =
        keep_append id (other_plans id db.plans) _
        ∙ rw (plans_of-other_plans_self id db.plans) (ground arith);
    other_incidents = λ j ne.
        keep_append j (other_plans id db.plans) _
        ∙ rw (plans_of-other_plans_ne id j db.plans ne)
            (ground (arith, append-nil (plans_of j db.plans)));
    steps_after = refl;
    numbered = h;
    open_plan = refl;
    autonomy = refl;
    approval = refl;
    published = refl;
  })

  propose-Emitted :
      (rationale : Option String) (xs : Option Items) (tiers : List (String × String))
      → gives_up final ≡ false
      → Emitted (propose env fresh rationale xs id event final tiers db)
  unfolding propose
  propose-Emitted (some rationale) (some xs) tiers g =
      with_steps-Emitted rationale xs _ g (step_rows-StepsOf fresh.step_id fresh.plan_id tiers 0 xs)
  propose-Emitted none xs tiers g = tt
  propose-Emitted (some rationale) none tiers g = tt

  pub persist-Emitted :
      (tiers : List (String × String)) → Emitted (persist env fresh id event final tiers db)
  unfolding persist write_escalation
  persist-Emitted tiers = elim (Bool-cases (gives_up final)) [
    | inl g ↦
        rw g (inl (record { gave_up = g; same_plans = refl; same_steps = refl; published = refl }))
    | inr g ↦ rw g (
        propose-Emitted (as_text (or_default (Json.text "") final.rationale))
          (items_of (or_default (Json.arr nil) final.plan)) tiers g)
  ]
