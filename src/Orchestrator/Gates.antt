-- ===== src/Orchestrator/Gates.antt =====
-- What the gate and the workflow of src/aegis_services/orchestrator/graph.py let through.
use aegis_project.Prelude.{
  ◌≡◌, ◌≢◌, ◌⊎◌, ◌↔◌, ◌+◌, ◌<◌, inl, inr, refl, true, false, not, Option, none, some, arith,
  Bool-cases,
}
use aegis_project.Prelude.Int.{ltb_ℤ}
use aegis_project.Reliability.Budget.{Reason, exhausted}
use aegis_project.Reliability.Budget.Laws.{exhausted_exact}
use aegis_project.Orchestrator.Agents.{Deps, Context}
use aegis_project.Orchestrator.State.{IncidentState, Decided}
use aegis_project.Orchestrator.Graph.{
  confidence_floor, autonomy_confidence, or_zero, or_false, gate_on, gate_node,
}

-- What a state that has passed the gate carries: autonomy is allowed exactly with a precedent and
-- a confidence of at least 0.7, and approval is required exactly without autonomy.
pub record IsCleared (s : IncidentState) : Type 0 where
  pub confident : ltb_ℤ (or_zero s.confidence) confidence_floor ≡ false
  pub with_precedent : s.autonomy_allowed ≡ some true → or_false s.has_precedent ≡ true
  pub with_confidence :
      s.autonomy_allowed ≡ some true → ltb_ℤ (or_zero s.confidence) autonomy_confidence ≡ false
  pub autonomous :
      or_false s.has_precedent ≡ true
      → ltb_ℤ (or_zero s.confidence) autonomy_confidence ≡ false
      → s.autonomy_allowed ≡ some true
  pub approval : s.requires_approval ≡ some (not (or_false s.autonomy_allowed))
  pub kept : s.escalated ≡ some false

cleared :
    (s : IncidentState)
    → ltb_ℤ (or_zero s.confidence) confidence_floor ≡ false
    → IsCleared (gate_on none s) × ((gate_on none s).decision ≡ some Decided.recommend)
unfolding gate_on
cleared s h = rw h (
  record {
    confident = h;
    with_precedent = λ e. ground arith;
    with_confidence = λ e. ground arith;
    autonomous = λ p q. rw (p, q);
    approval = refl;
    kept = refl;
  },
  refl,
)

-- The gate's branches on the budget's reason and on the confidence.
pub gate_exact :
    (reason : Option Reason) (s : IncidentState)
    → ((reason ≢ none) ⊎ (ltb_ℤ (or_zero s.confidence) confidence_floor ≡ true)
        → ((gate_on reason s).decision ≡ some Decided.escalate)
          × ((gate_on reason s).escalated ≡ some true))
      × (reason ≡ none
          → ltb_ℤ (or_zero s.confidence) confidence_floor ≡ false
          → IsCleared (gate_on reason s) × ((gate_on reason s).decision ≡ some Decided.recommend))
gate_exact none s = (λ h. unfold gate_on in ground arith, λ _ h. cleared s h)
gate_exact (some r) s = (λ h. unfold gate_on in (refl, refl), λ e h. absurd (cc e))

-- What the gate leaves where it opens under a condition.
abbrev GateOpens : Type 0 → IncidentState → Type 0
GateOpens condition t =
    ((t.decision ≡ some Decided.recommend) ↔ condition)
    × (t.decision ≡ some Decided.recommend → IsCleared t)
    × (t.decision ≢ some Decided.recommend
        → (t.decision ≡ some Decided.escalate) × (t.escalated ≡ some true))

gate_on-GateOpens :
    (W : Type 0) (r : Option Reason) (s : IncidentState)
    → ((r ≡ none) ↔ W)
    → GateOpens (W × (ltb_ℤ (or_zero s.confidence) confidence_floor ≡ false)) (gate_on r s)
gate_on-GateOpens W (some r) s within =
    let (d, esc) = (gate_exact (some r) s).0 (inl (λ z. cc)) in
    ((λ h. cc, λ h. absurd (let e : some r ≡ none = within.1 h.0 in cc)), λ h. cc, λ n. (d, esc))
gate_on-GateOpens W none s within =
    elim (Bool-cases (ltb_ℤ (or_zero s.confidence) confidence_floor)) [
      | inl low ↦
          let (d, esc) = (gate_exact none s).0 (inr low) in
          ((λ h. cc, λ h. cc), λ h. cc, λ n. (d, esc))
      | inr high ↦
          let (clear, d) = (gate_exact none s).1 refl high in
          ((λ h. (within.0 refl, high), λ h. d), λ h. clear, λ n. absurd (n d))
    ]

-- Every state and clock passes the gate without raising. The gate recommends exactly if three
-- limits are kept, fewer iterations and fewer tokens than allowed were charged and the clock of a
-- started budget is before its end, and the confidence is not below the floor of 0.4; then
-- autonomy is allowed exactly with a precedent and a confidence of at least 0.7, and approval is
-- required exactly without autonomy. In every other case it escalates, with `escalated` set.
pub gate_node_exact :
    (deps : Deps) (s : IncidentState) (c : Context)
    → let now = deps.clock c.reads in
      let b = c.budget in
      (t : IncidentState) × ((gate_node deps s c).0 ≡ some t)
      × ((t.decision ≡ some Decided.recommend) ↔ (
          ((b.iterations < b.max_iterations)
            × (b.tokens < b.max_tokens)
            × (b.started ≡ true → now < b.start_time + b.wallclock))
          × (ltb_ℤ (or_zero s.confidence) confidence_floor ≡ false)))
      × (t.decision ≡ some Decided.recommend → IsCleared t)
      × (t.decision ≢ some Decided.recommend
          → (t.decision ≡ some Decided.escalate) × (t.escalated ≡ some true))
unfolding gate_node
gate_node_exact deps s c =
    let now = deps.clock c.reads in
    let opens = gate_on-GateOpens _ (exhausted now c.budget) _ (exhausted_exact now c.budget) in
    (_, refl, opens.0, opens.1, opens.2)
