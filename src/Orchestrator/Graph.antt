-- ===== src/Orchestrator/Graph.antt =====
-- src/aegis_services/orchestrator/graph.py: the safety gate and the workflow.
use aegis_project.Prelude.{◌+◌, Bool, true, false, not, ◌&&◌, Option, none, some, if◌then◌else◌}
use aegis_project.Prelude.Int.{ℤ, pos, ltb_ℤ}
use aegis_project.Reliability.Budget.{Reason, exhausted}
use aegis_project.Orchestrator.State.{IncidentState, Decided, Escalation}
use aegis_project.Orchestrator.Agents.{
  Deps, Run, ◌>>=◌, pure, triage_agent, investigation_agent, recommendation_agent,
}

abbrev pub confidence_floor : ℤ
confidence_floor = pos 400000

abbrev pub autonomy_confidence : ℤ
autonomy_confidence = pos 700000

abbrev pub or_zero : Option ℤ → ℤ
or_zero none = pos 0
or_zero (some z) = z

abbrev pub or_false : Option Bool → Bool
or_false none = false
or_false (some b) = b

-- The gate's branch on the budget's reason.
unfoldable pub gate_on : Option Reason → IncidentState → IncidentState
gate_on (some reason) state = record state {
  escalated = some true;
  escalation_reason = some (Escalation.exhausted reason);
  decision = some Decided.escalate;
}
gate_on none state =
    let confidence = or_zero state.confidence in
    let autonomy = or_false state.has_precedent && not (ltb_ℤ confidence autonomy_confidence) in
    if ltb_ℤ confidence confidence_floor
    then record state {
      escalated = some true;
      escalation_reason = some (Escalation.low_confidence confidence);
      decision = some Decided.escalate;
    }
    else record state {
      autonomy_allowed = some autonomy;
      requires_approval = some (not autonomy);
      escalated = some false;
      decision = some Decided.recommend;
    }

module _ (deps : Deps) where
  -- `gate_node`
  unfoldable pub gate_node : IncidentState → Run IncidentState
  gate_node state c = (
    some (
        gate_on (exhausted (deps.clock c.reads) c.budget) (record state {
          iterations = some c.budget.iterations;
          tokens_used = some c.budget.tokens;
        })),
    record c { reads = c.reads + 1 },
  )

-- `finalize_node`
unfoldable pub finalize_node : IncidentState → IncidentState
finalize_node state = record state { decision = some Decided.plan_ready }

-- `_route_after_gate`: whether the workflow goes on to the recommendation
abbrev pub goes_on : Option Decided → Bool
goes_on (some Decided.escalate) = false
goes_on _ = true

module _ (deps : Deps) where
  -- The part of the graph behind the gate.
  unfoldable pub after_gate : IncidentState → Run IncidentState
  unfolding finalize_node
  after_gate state =
      let recommended : Run IncidentState = (do
        s ← recommendation_agent deps state
        pure (finalize_node s)) in
      if goes_on state.decision then recommended else pure state

  -- The compiled graph on a state.
  unfoldable pub run_graph : IncidentState → Run IncidentState
  unfolding after_gate gate_node
  run_graph state = do
    s1 ← triage_agent deps state
    s2 ← investigation_agent deps s1
    s3 ← gate_node deps s2
    after_gate s3
