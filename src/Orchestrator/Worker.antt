-- ===== src/Orchestrator/Worker.antt =====
-- `handle_opened` of src/aegis_services/orchestrator/worker.py. The model and the retrieval service
-- are the agents' dependencies.
use aegis_project.Prelude.{
  ℕ, ◌+◌, Bool, true, false, String, Option, none, some, List, [], ◌∷◌, ◌++◌,
}
use aegis_project.Json.{Json}
use aegis_project.Schemas.{severity_value}
use aegis_project.Events.{IncidentEvent, IncidentEventType}
use aegis_project.Reliability.Breaker.{Breaker}
use aegis_project.Reliability.Budget.{new_budget, start}
use aegis_project.Store.{Env, Db, IncidentRow, SignalRow}
use aegis_project.Orchestrator.State.{IncidentState, initial_state}
use aegis_project.Orchestrator.Agents.{Deps, Context}
use aegis_project.Orchestrator.Graph.{run_graph}
use aegis_project.Orchestrator.Load.{load_incident, risk_tier_map}
use aegis_project.Orchestrator.Rows.{Fresh}
use aegis_project.Orchestrator.Persist.{Written, persist}

pub data Handled : Type 0 where
  returned raised : Handled

-- The database, the breakers of the model and of retrieval, the bus and the clock's readings.
pub record State (env : Env) : Type 0 where
  pub db : Db env
  pub breaker : Breaker
  pub rag_breaker : Breaker
  pub bus : List (IncidentEvent env.crypto.Digest)
  pub reads : ℕ

-- The settings of a budget.
pub record Limits : Type 0 where
  pub max_iterations : ℕ
  pub wallclock : ℕ
  pub max_tokens : ℕ

module _ (env : Env) (fresh : Fresh) where
  -- The publish, which follows the commit: when it raises, the rows stay written.
  abbrev pub publish_after :
      Bool → IncidentEvent env.crypto.Digest → State env → Handled × State env
  publish_after true out s = (Handled.returned, record s { bus = s.bus ++ out ∷ [] })
  publish_after false out s = (Handled.raised, s)

  abbrev pub emit : Written env fresh → State env → Handled × State env
  emit none s = (Handled.raised, s)
  emit (some (db, out)) s = publish_after fresh.delivers out (record s { db = db })

  -- `_persist_and_emit`
  unfoldable pub persist_and_emit :
      ℕ
      → IncidentEvent env.crypto.Digest
      → IncidentState
      → List (String × String)
      → State env
      → Handled × State env
  unfolding persist
  persist_and_emit incident_id event final risk_tiers s =
      emit (persist env fresh incident_id event final risk_tiers s.db) s

  module _ (deps : Deps) (limits : Limits) where
    -- The context of a run, with its budget started.
    unfoldable pub new_context : State env → Context
    unfolding new_budget start
    new_context s = record {
      breaker = s.breaker;
      rag_breaker = s.rag_breaker;
      budget =
          start (deps.clock s.reads)
            (new_budget limits.max_iterations limits.wallclock limits.max_tokens);
      reads = s.reads + 1;
    }

    -- What the run leaves of the breakers and the clock.
    unfoldable pub after_run : Context → State env → State env
    after_run c s = record s { breaker = c.breaker; rag_breaker = c.rag_breaker; reads = c.reads }

    unfoldable pub finish_run :
        ℕ
        → IncidentEvent env.crypto.Digest
        → List (String × String)
        → Option IncidentState × Context
        → State env
        → Handled × State env
    unfolding after_run
    finish_run incident_id event risk_tiers (none, c) s = (Handled.raised, after_run c s)
    finish_run incident_id event risk_tiers (some final, c) s =
        persist_and_emit incident_id event final risk_tiers (after_run c s)

    -- The workflow on an incident that was loaded.
    unfoldable pub orchestrate :
        Option IncidentRow × List SignalRow
        → IncidentEvent env.crypto.Digest
        → State env
        → Handled × State env
    unfolding new_context run_graph initial_state
    orchestrate (none, signals) event s = (Handled.returned, s)
    orchestrate (some inc, signals) event s =
        finish_run event.incident_id event (risk_tier_map env s.db)
          (run_graph deps
            (initial_state event.incident_id inc.fencing_token inc.title inc.services
              (Json.text (severity_value inc.severity)))
            (new_context s))
          s

    -- `handle_opened`
    unfoldable pub handle_opened : IncidentEvent env.crypto.Digest → State env → Handled × State env
    unfolding load_incident
    handle_opened event s =
        let run = orchestrate (load_incident env event.incident_id s.db) event s in
        elim event.event_type [ IncidentEventType.opened ↦ run | _ ↦ (Handled.returned, s) ]
