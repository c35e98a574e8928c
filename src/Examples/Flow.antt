-- ===== src/Examples/Flow.antt =====
-- The theorems from an opened incident to its execution at concrete values.
use aegis_project.Prelude.{◌≡◌, refl, true, Option, none, some, [], ◌∷◌}
use aegis_project.Prelude.Int.{pos}
use aegis_project.Json.{Json, nil, cons, end, field}
use aegis_project.Events.{IncidentEvent, IncidentEventType, plain_event}
use aegis_project.Reliability.Breaker.{new_breaker}
use aegis_project.Store.Lookup.{get_row}
use aegis_project.Pdp.Decide.{decide, parse_decision}
use aegis_project.Pdp.Outcome.{IsDecidable}
use aegis_project.Store.{approve}
use aegis_project.Orchestrator.State.{IncidentState, initial_state}
use aegis_project.Orchestrator.Agents.{Role, Reply, Deps}
use aegis_project.Orchestrator.Rows.{Fresh}
use aegis_project.Orchestrator.Worker.{State, Limits, handle_opened}
use aegis_project.Orchestrator.Opened.{Driven, handle_opened-Driven}
use aegis_project.Executor.Worker.{handle_approved}
use aegis_project.Executor.Outcome.{Concluded, approval_is_executed}
use aegis_project.Examples.Fixtures.{
  env, plain_crypto-IsSound, incident, plan, db, runtime, clocks, state,
}

abbrev pub opened : IncidentEvent env.crypto.Digest
opened = plain_event 3 IncidentEventType.opened end

-- A model that proposes one step with a confidence of 0.9, and a retrieval without precedent.
abbrev reply : Role → IncidentState → Option Reply
reply Role.triage s =
    some (record { total_tokens = pos 40; parsed = some (Json.obj end); text = "" })
reply Role.investigation s = some (record {
  total_tokens = pos 60;
  parsed = some (Json.obj (field "confidence" (Json.float (pos 900000)) end));
  text = "";
})
reply Role.recommendation s = some (record {
  total_tokens = pos 50;
  parsed = some (
      Json.obj (
        field "plan"
          (Json.arr (cons (Json.obj (field "action" (Json.text "restart_deployment") end)) nil))
          end));
  text = "";
})

abbrev pub deps : Deps
deps = record {
  complete = reply;
  post = λ s. some (Json.obj end);
  parse_float = λ s. none;
  clock = λ n. n;
}

abbrev pub fresh : Fresh
fresh = record { reason_text = λ r. "reason"; plan_id = 8; step_id = λ i. i; delivers = true }

abbrev pub limits : Limits
limits = record { max_iterations = 6; wallclock = 300; max_tokens = 1000 }

abbrev idle : State env
idle = record {
  db = db;
  breaker = new_breaker 4 20;
  rag_breaker = new_breaker 4 20;
  bus = [];
  reads = 0;
}

handle_opened-Driven_example :
    let r = handle_opened env fresh deps limits opened idle in
    Driven env fresh deps limits opened idle
      (initial_state 3 (some 5) "checkout errors" ("checkout" ∷ []) (Json.text "sev2"))
      r.1
      r.0
unfolding get_row
handle_opened-Driven_example =
    handle_opened-Driven env fresh deps limits opened idle incident refl refl

plan-IsDecidable : IsDecidable env 7 "approved" db plan approve 5
unfolding parse_decision get_row
plan-IsDecidable = record { parsed = refl; found = refl; open_plan = refl; fenced = refl }

approval_is_executed_example :
    (e : IncidentEvent env.crypto.Digest) × ((decide env 7 "approved" "alice" db).2 ≡ e ∷ [])
    × (start : IncidentEvent env.crypto.Digest) × (start.event_type ≡ IncidentEventType.executing)
    × (start.incident_id ≡ 3)
    × Concluded env runtime clocks
        (start ∷ [])
        (handle_approved env runtime clocks e state).0
        (handle_approved env runtime clocks e state).1.bus
unfolding get_row
approval_is_executed_example =
    approval_is_executed env runtime clocks plain_crypto-IsSound 7 "alice" db plan 4 state plan
      incident plan-IsDecidable refl refl refl
