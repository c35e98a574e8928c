-- ===== src/Orchestrator/Workflow.antt =====
-- What a state carries when the workflow of src/aegis_services/orchestrator/graph.py ends.
use aegis_project.Prelude.{
  ◌≡◌, ◌≢◌, ◌⊎◌, inl, inr, refl, sym, ◌∙◌, true, false, Option, none, some, arith, Bool-cases,
}
use aegis_project.Prelude.Int.{ltb_ℤ}
use aegis_project.Reliability.Budget.{Reason, exhausted}
use aegis_project.Orchestrator.State.{IncidentState, Decided}
use aegis_project.Orchestrator.Agents.{
  Deps, pure, triage_agent, investigation_agent, recommendation_agent,
}
use aegis_project.Orchestrator.Graph.{
  confidence_floor, or_zero, gate_on, gate_node, finalize_node, goes_on, after_gate, run_graph,
}
use aegis_project.Orchestrator.Gates.{IsCleared, gate_exact}
use aegis_project.Orchestrator.Ensures.{Ensures, Ensures-bind, Ensures-then}

-- No plan and no rationale was added.
abbrev SamePlan : IncidentState → IncidentState → Type 0
SamePlan s t = (t.plan ≡ s.plan) × (t.rationale ≡ s.rationale)

-- The fields that the gate decides on and sets.
abbrev SameGate : IncidentState → IncidentState → Type 0
SameGate s t =
    (t.confidence ≡ s.confidence)
    × (t.has_precedent ≡ s.has_precedent)
    × (t.autonomy_allowed ≡ s.autonomy_allowed)
    × (t.requires_approval ≡ s.requires_approval)
    × (t.escalated ≡ s.escalated)

-- What the gate leaves: the state is escalated, or cleared.
abbrev Gated : IncidentState → Type 0
Gated s =
    ((s.decision ≡ some Decided.escalate) × (s.escalated ≡ some true))
    ⊎ (IsCleared s × (s.decision ≡ some Decided.recommend))

-- How the workflow ends: escalated without a plan of its own, or cleared by the gate with a plan.
pub data Ended (s0 s : IncidentState) : Type 0 where
  escalated :
      s.decision ≡ some Decided.escalate → s.escalated ≡ some true → s.plan ≡ s0.plan → Ended s0 s
  planned : s.decision ≡ some Decided.plan_ready → IsCleared s → s.plan ≢ none → Ended s0 s

stops : (d : Option Decided) → d ≡ some Decided.escalate → goes_on d ≡ false
stops d e = rw e refl

continues : (d : Option Decided) → d ≡ some Decided.recommend → goes_on d ≡ true
continues d e = rw e refl

module _ (deps : Deps) where
  triage_agent-SamePlan : (s : IncidentState) → Ensures (SamePlan s) (triage_agent deps s)
  unfolding triage_agent
  triage_agent-SamePlan s =
      Ensures-then _ _ _
        λ _. Ensures-then _ _ _ λ out. Ensures-then _ _ _ λ services c. (refl, refl)

  investigation_agent-SamePlan :
      (s : IncidentState) → Ensures (SamePlan s) (investigation_agent deps s)
  unfolding investigation_agent
  investigation_agent-SamePlan s = Ensures-then _ _ _ λ _. Ensures-then _ _ _ λ ev.
      Ensures-then _ _ _ λ score.
        Ensures-then _ _ _
          λ shown. Ensures-then _ _ _ λ out. Ensures-then _ _ _ λ confidence c. (refl, refl)

  recommendation_agent-SameGate :
      (s : IncidentState)
      → Ensures (λ t. SameGate s t × (t.plan ≢ none)) (recommendation_agent deps s)
  unfolding recommendation_agent
  recommendation_agent-SameGate s = Ensures-then _ _ _ λ _. Ensures-then _ _ _ λ shown.
      Ensures-then _ _ _ λ out. Ensures-then _ _ _ λ _ c. ((refl, refl, refl, refl, refl), λ e. cc)

  IsCleared-transfer : (s t : IncidentState) → SameGate s t → IsCleared s → IsCleared t
  IsCleared-transfer s t (c, p, a, r, e) cleared = record {
    confident = rw c cleared.confident;
    with_precedent = λ h. rw p (cleared.with_precedent (sym a ∙ h));
    with_confidence = λ h. rw c (cleared.with_confidence (sym a ∙ h));
    autonomous = λ h k. a ∙ cleared.autonomous (rw p at h) (rw c at k);
    approval = rw (r, a) cleared.approval;
    kept = e ∙ cleared.kept;
  }

  after_gate-Ended :
      (s0 s : IncidentState) → s.plan ≡ s0.plan → Gated s → Ensures (Ended s0) (after_gate deps s)
  unfolding after_gate finalize_node
  after_gate-Ended s0 s same (inl (e, kept)) =
      rw (stops s.decision e) λ c. Ended.escalated e kept same
  after_gate-Ended s0 s same (inr (cleared, e)) = rw (continues s.decision e) (
      Ensures-bind (λ t. SameGate s t × (t.plan ≢ none)) (Ended s0) (recommendation_agent deps s)
        (λ t. pure (finalize_node t)) (recommendation_agent-SameGate s)
        λ t kept c. Ended.planned refl (IsCleared-transfer s _ kept.0 cleared) kept.1)

  gate_on-plan : (r : Option Reason) (s : IncidentState) → (gate_on r s).plan ≡ s.plan
  unfolding gate_on
  gate_on-plan none s = ground arith
  gate_on-plan (some r) s = refl

  gate_on-Gated : (r : Option Reason) (s : IncidentState) → Gated (gate_on r s)
  gate_on-Gated (some r) s = inl ((gate_exact (some r) s).0 (inl (λ e. cc)))
  gate_on-Gated none s = elim (Bool-cases (ltb_ℤ (or_zero s.confidence) confidence_floor)) [
    | inl low ↦ inl ((gate_exact none s).0 (inr low))
    | inr high ↦ inr ((gate_exact none s).1 refl high)
  ]

  gate_node-Gated :
      (s : IncidentState) → Ensures (λ t. Gated t × (t.plan ≡ s.plan)) (gate_node deps s)
  unfolding gate_node
  gate_node-Gated s c = (
    gate_on-Gated (exhausted (deps.clock c.reads) c.budget) _,
    gate_on-plan (exhausted (deps.clock c.reads) c.budget) _,
  )

  -- The workflow from any state ends, if it does not raise, in one of two ways. Either it is
  -- escalated, with the plan that the state began with; or it has a plan and is cleared:
  -- confidence at least 0.4, autonomy exactly with a precedent and a confidence of at least 0.7,
  -- approval required exactly without autonomy.
  pub run_graph-Ended : (s0 : IncidentState) → Ensures (Ended s0) (run_graph deps s0)
  unfolding run_graph
  run_graph-Ended s0 = Ensures-bind (SamePlan s0) (Ended s0) _ _ (triage_agent-SamePlan s0) λ s1 p1.
      Ensures-bind (SamePlan s1) (Ended s0) _ _ (investigation_agent-SamePlan s1) λ s2 p2.
        Ensures-bind (λ t. Gated t × (t.plan ≡ s2.plan)) (Ended s0) _ _ (gate_node-Gated s2)
          λ s3 p3. after_gate-Ended s0 s3 (p3.1 ∙ p2.0 ∙ p1.0) p3.0
