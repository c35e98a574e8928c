-- ===== src/Examples/Together.antt =====
-- The theorems on the services together at concrete values.
use aegis_project.Prelude.{inl, refl, true, false, [], ◌∷◌, List, arith}
use aegis_project.Audit.Laws.{IsValid}
use aegis_project.Reliability.Breaker.{new_breaker}
use aegis_project.System.{World, System, Action, run}
use aegis_project.System.Governed.{IsGoverned, run-IsGoverned}
use aegis_project.System.Changes.{Explained, target_changes_approved}
use aegis_project.System.Fenced.{IsOrdered, run-IsOrdered}
use aegis_project.Examples.Fixtures.{env, db, runtime, clocks}
use aegis_project.Examples.Flow.{fresh, deps, limits, opened}

abbrev world : World env runtime
world = record {
  db = db;
  lifecycle = opened ∷ [];
  requested = [];
  last_token = 5;
  target = [];
  llm_breaker = new_breaker 4 20;
  rag_breaker = new_breaker 4 20;
  infra_breaker = new_breaker 3 30;
  agent_reads = 0;
  action_reads = 0;
}

abbrev together : System env runtime
together = record {
  world = world;
  orchestrator = record { position = 0; committed = 0 };
  executor = record { position = 0; committed = 0 };
}

-- The incident is worked on, the plan is approved and executed, and the executor starts again
-- before it has committed.
abbrev course : List Action
course =
    Action.orchestrate true fresh deps
    ∷ Action.decision 7 "approved" "alice" true
    ∷ Action.execute false
    ∷ Action.restart_executor
    ∷ Action.execute true
    ∷ []

empty_log : IsValid env.hasher []
empty_log = record { chained = tt; numbered = tt }

governed : IsGoverned env runtime [] world
governed = record {
  requests = tt;
  announced = (tt, tt);
  on_target = inl refl;
  audit_valid = empty_log;
}

run-IsGoverned_example :
    IsGoverned env runtime [] (run env runtime limits clocks [] 300 course together).world
run-IsGoverned_example = run-IsGoverned env runtime [] limits clocks [] 300 course together governed

run-IsOrdered_example :
    IsOrdered env runtime (run env runtime limits clocks [] 300 course together).world
run-IsOrdered_example =
    run-IsOrdered env runtime [] limits clocks [] 300 course together governed
      (record { drawn = (omega arith, tt); distinct = (tt, tt) })

-- The incident is worked on and the plan approved; the executor comes next.
abbrev approval : List Action
approval = Action.orchestrate true fresh deps ∷ Action.decision 7 "approved" "alice" true ∷ []

target_changes_approved_example :
    Explained env runtime [] limits clocks [] 300
      (Action.execute true)
      (run env runtime limits clocks [] 300 approval together)
target_changes_approved_example =
    target_changes_approved env runtime [] limits clocks [] 300 approval together
      (Action.execute true) governed
