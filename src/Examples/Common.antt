-- ===== src/Examples/Common.antt =====
-- The theorems on the breaker, the budget, signatures, parameters and the audit log at concrete
-- values.
use aegis_project.Prelude.{
  ◌+◌, ◌*◌, ◌<◌, ◌≢◌, ◌≡◌, refl, true, false, some, none, List, [], ◌∷◌, arith, ltb,
}
use aegis_project.Prelude.Int.{pos}
use aegis_project.Json.{Json, nil, cons, Fields, end, field}
use aegis_project.Reliability.Breaker.{Breaker, Call, new_breaker, closed, opened}
use aegis_project.Reliability.Breaker.Laws.{
  IsValid, run_calls, run_calls-IsValid, new_breaker-IsValid, trips_at_threshold,
}
use aegis_project.Reliability.Budget.{Budget, exhausted}
use aegis_project.Security.Signing.{mint_credential, is_valid, sign_approval, verify_approval}
use aegis_project.Security.Laws.{verify-sign, mint-is_valid, is_valid-mint}
use aegis_project.Audit.{AuditRow, Entry, verify_chain}
use aegis_project.Audit.Laws.{log_verifies, tamper_evident, append_all, Numbered, SameContent}
use aegis_project.Examples.Fixtures.{
  plain_crypto, plain_crypto-IsSound, plain_hasher, plain_hasher-IsCollisionFree, params,
  capability,
}

abbrev failing : Call
failing = record { at = 1; done = 2; succeeds = false }

abbrev working : Call
working = record { at = 70; done = 71; succeeds = true }

abbrev fresh : Breaker
fresh = new_breaker 2 60

run_calls-IsValid_example : IsValid (run_calls (failing ∷ failing ∷ working ∷ []) fresh)
run_calls-IsValid_example =
    run_calls-IsValid (failing ∷ failing ∷ working ∷ []) fresh
      (new_breaker-IsValid 2 60 (omega arith))

fresh_closed : fresh.state ≡ closed
unfolding new_breaker
fresh_closed = refl

room_for_one : fresh.failures + 1 < fresh.threshold
unfolding new_breaker
room_for_one = omega arith

reaches_threshold : fresh.failures + 1 + 1 ≡ fresh.threshold
unfolding new_breaker
reaches_threshold = refl

trips_at_threshold_example :
    ((run_calls (failing ∷ failing ∷ []) fresh).state ≡ opened)
    × ((run_calls (failing ∷ failing ∷ []) fresh).opened_at ≡ 2)
trips_at_threshold_example =
    trips_at_threshold (failing ∷ []) failing fresh (refl, tt) refl fresh_closed reaches_threshold

-- A budget with all its iterations spent.
abbrev spent : Budget
spent = record {
  max_iterations = 6;
  wallclock = 120;
  max_tokens = 1000;
  start_time = 0;
  iterations = 6;
  tokens = 10;
  started = true;
}

spent-exhausted : exhausted 5 spent ≢ none
unfolding exhausted
spent-exhausted = λ e. cc e

capability_valid : is_valid plain_crypto 60 capability ≡ true
unfolding is_valid mint_credential
capability_valid = verify-sign plain_crypto plain_crypto-IsSound _

is_valid-mint_example :
    (capability.incident_id ≡ 3)
    × (capability.plan_id ≡ 7)
    × (capability.fencing_token ≡ 5)
    × (capability.namespace ≡ Json.text "default")
    × (capability.expires_at ≡ 0 + 120 * 1000000)
    × (60 < 0 + 120 * 1000000)
is_valid-mint_example =
    is_valid-mint plain_crypto plain_crypto-IsSound 0 60 3 7 5 (Json.text "default") 120 capability
      refl capability_valid

mint-is_valid_example : is_valid plain_crypto 60 capability ≡ ltb 60 (0 + 120 * 1000000)
mint-is_valid_example =
    mint-is_valid plain_crypto plain_crypto-IsSound 0 60 3 7 5 (Json.text "default") 120

params_verify : verify_approval plain_crypto params (sign_approval plain_crypto params) ≡ true
unfolding verify_approval
params_verify = (plain_crypto-IsSound.compare_digest_iff _ _).1 refl

abbrev schema : Fields
schema = field "required" (Json.arr (cons (Json.text "deployment") nil)) end

abbrev entry_of : Json → Entry
entry_of v = record {
  actor = "detection";
  action = "incident.opened";
  payload = field "v" v end;
  incident_id = some 3;
  trace_id = none;
}

abbrev entries : List Entry
entries = entry_of (Json.int (pos 1)) ∷ entry_of Json.null ∷ []

abbrev rows : List (AuditRow plain_hasher)
rows = append_all plain_hasher entries []

rows_verify : verify_chain plain_hasher rows ≡ true
rows_verify = (log_verifies plain_hasher entries).0

log_verifies_example : (verify_chain plain_hasher rows ≡ true) × Numbered plain_hasher 0 rows
log_verifies_example = log_verifies plain_hasher entries

tamper_evident_example : SameContent plain_hasher rows rows
tamper_evident_example =
    tamper_evident plain_hasher plain_hasher-IsCollisionFree rows rows rows_verify rows_verify refl
      refl
