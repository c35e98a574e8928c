-- ===== src/Examples/Actions.antt =====
-- The theorems on the action path at concrete values.
use aegis_project.Prelude.{ℕ, ◌≢◌, none, ◌≡◌, ◌⊎◌, refl, true, false, some, [], ◌∷◌, ◌++◌, arith}
use aegis_project.Json.{Json, end, field, get}
use aegis_project.Security.Signing.{verify_approval, sign_approval}
use aegis_project.Events.{IncidentEvent, IncidentEventType}
use aegis_project.Store.{approve, reject}
use aegis_project.Store.Lookup.{get_row}
use aegis_project.Http.{ok}
use aegis_project.Pdp.Decide.{decide, parse_decision, approved_event, approval_record, status_after}
use aegis_project.Pdp.Outcome.{is_ok, IsDecidable, plan_id_of, incident_id_of}
use aegis_project.Pdp.Laws.{
  decide_effects, decide_all, decide_all-DecidedOnce, DecidedOnce, new_approval, SameElse,
}
use aegis_project.Executor.Gate.{
  IsAuthorized-or_Untouched, IsAuthorized, Untouched, signed_for_another,
}
use aegis_project.Executor.Worker.{handle_approved, execute_plan}
use aegis_project.Examples.Fixtures.{
  env, plain_crypto-IsSound, incident, plan, db, clocks, runtime, state, event,
}

is_decidable : IsDecidable env 7 "approved" db plan approve 5
unfolding parse_decision get_row
is_decidable = record { parsed = refl; found = refl; open_plan = refl; fenced = refl }

IsAuthorized-or_Untouched_example :
    IsAuthorized event state ⊎ Untouched state (handle_approved env runtime clocks event state).1
IsAuthorized-or_Untouched_example = IsAuthorized-or_Untouched env runtime clocks event state

-- An event that names the plan under a record that was signed for a rejection of another plan.
abbrev odd_event : IncidentEvent env.crypto.Digest
odd_event = record {
  incident_id = 3;
  event_type = IncidentEventType.approved;
  fencing_token = some 5;
  trace_id = none;
  payload =
      field "plan_id" (Json.uuid 7)
        (field "record" (Json.obj (approval_record 8 3 reject "bob" 5)) end);
  signature = some (sign_approval env.crypto (approval_record 8 3 reject "bob" 5));
}

odd_names : get "plan_id" odd_event.payload ≡ some (Json.uuid 7)
unfolding get
odd_names = refl

odd_record : get "record" odd_event.payload ≡ some (Json.obj (approval_record 8 3 reject "bob" 5))
unfolding get
odd_record = refl

plan_there : get_row plan_id_of 7 state.db.plans ≡ some plan
unfolding get_row
plan_there = refl

incident_there : get_row incident_id_of 3 state.db.incidents ≡ some incident
unfolding get_row
incident_there = refl

signed_for_another_example :
    handle_approved env runtime clocks odd_event state
    ≡ execute_plan env runtime clocks incident 3 7 odd_event state
signed_for_another_example =
    signed_for_another env runtime clocks plain_crypto-IsSound odd_event state 7 8 3 reject "bob" 5
      plan incident refl odd_names odd_record refl plan_there incident_there refl

decide_effects_example :
    let (r, db', out) = decide env 7 "approved" "alice" db in
    let row = new_approval env plan approve "alice" 5 in
    (r ≡ ok (status_after approve))
    × (db'.approvals ≡ db.approvals ++ row ∷ [])
    × (verify_approval env.crypto (approval_record 7 3 approve "alice" 5) row.signature ≡ true)
    × (get_row plan_id_of 7 db'.plans ≡ some (record plan { status = status_after approve }))
    × ((j : ℕ) → j ≢ 7 → get_row plan_id_of j db'.plans ≡ get_row plan_id_of j db.plans)
    × SameElse env db' db
    × (approve ≡ approve → out ≡ approved_event env plan "alice" 5 ∷ [])
    × (approve ≡ reject → out ≡ [])
decide_effects_example =
    decide_effects env plain_crypto-IsSound 7 "approved" "alice" db plan approve 5 is_decidable

unknown_plan : is_ok (decide env 9 "approved" "alice" db).0 ≡ false
unfolding decide parse_decision get_row
unknown_plan = refl

db_once : DecidedOnce env db
db_once = record { open_plans = λ id p g o. refl; at_most_one = λ id. omega arith }

decide_all-DecidedOnce_example :
    DecidedOnce env (decide_all env ((7, "approved", "alice") ∷ (7, "rejected", "bob") ∷ []) db)
decide_all-DecidedOnce_example =
    decide_all-DecidedOnce env ((7, "approved", "alice") ∷ (7, "rejected", "bob") ∷ []) db db_once
