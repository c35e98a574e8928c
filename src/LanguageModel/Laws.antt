-- ===== src/LanguageModel/Laws.antt =====
-- What the offline model of src/aegis_common/llm.py answers to the agents of
-- src/aegis_services/orchestrator/agents.py.
use aegis_project.Prelude.{
  ◌≤◌, ◌≡◌, refl, ap, str_eq, String, Bool, true, false, ◌||◌, Option, none, some, [], ◌∷◌, any,
  arith, if◌then◌else◌,
}
use aegis_project.Prelude.Int.{ℤ, pos}
use aegis_project.Json.{Json, Fields, get, get_or}
use aegis_project.Texts.{contains}
use aegis_project.Orchestrator.State.{IncidentState, Decided}
use aegis_project.Orchestrator.Agents.{Role}
use aegis_project.Orchestrator.Reading.{to_float}
use aegis_project.Orchestrator.Graph.{gate_on}
use aegis_project.LanguageModel.{
  Text, total_tokens, estimate_tokens, complete, triage, severity_in, investigate, recommend,
  respond_value,
}

-- Every call of the offline model reports at least two tokens, one for the prompt and one for the
-- answer, also when both are empty.
pub complete-total_tokens :
    (t : Text) (system user : String) → 2 ≤ total_tokens (complete t system user)
unfolding total_tokens complete estimate_tokens
complete-total_tokens t system user = omega arith

-- Whether a text holds a keyword of the first and of the second severity.
abbrev pub is_sev1 : String → Bool
is_sev1 low =
    any (λ k. contains k low) ("outage" ∷ "down" ∷ "critical" ∷ "exhausted" ∷ "5xx" ∷ "crash" ∷ [])

abbrev pub is_sev2 : String → Bool
is_sev2 low =
    any (λ k. contains k low) ("latency" ∷ "slow" ∷ "degraded" ∷ "error rate" ∷ "timeout" ∷ [])

severity_cases :
    (a b c : Bool)
    → let severity : String =
        if a then "sev1" else (if b then "sev2" else (if c then "sev3" else "sev3")) in
      (severity ≡ (if a then "sev1" else (if b then "sev2" else "sev3")))
      × ((str_eq severity "sev1" || str_eq severity "sev2") ≡ (a || b))
severity_cases true b c = (refl, refl)
severity_cases false true c = (refl, refl)
severity_cases false false true = (refl, refl)
severity_cases false false false = (refl, refl)

-- The offline triage answers "sev1" exactly if the text holds a keyword of that severity, else
-- "sev2" if it holds one of that, else "sev3"; it answers urgent exactly in the first two cases.
pub triage_exact :
    (t : Text) (user : String)
    → let low = t.lower user in
      (get "severity" (triage t user)
        ≡ some
            (Json.text (if is_sev1 low then "sev1" else (if is_sev2 low then "sev2" else "sev3"))))
      × (get "urgent" (triage t user) ≡ some (Json.bool (is_sev1 low || is_sev2 low)))
unfolding triage severity_in get
triage_exact t user =
    let low = t.lower user in
    let cases =
      severity_cases (is_sev1 low) (is_sev2 low)
        (any (λ k. contains k low) ("warning" ∷ "elevated" ∷ "minor" ∷ [])) in
    (ap (λ s. some (Json.text s)) cases.0, ap (λ b. some (Json.bool b)) cases.1)

-- The system prompts of the agents, and what `str.lower` makes of them.
abbrev pub system_of : Role → String
system_of Role.triage = "You are the Triage agent for an SRE incident."
system_of Role.investigation = "You are the Investigation agent. Ground every claim in evidence."
system_of Role.recommendation = "You are the Recommendation agent. Propose catalog actions only."

abbrev pub lower_system_of : Role → String
lower_system_of Role.triage = "you are the triage agent for an sre incident."
lower_system_of Role.investigation =
    "you are the investigation agent. ground every claim in evidence."
lower_system_of Role.recommendation =
    "you are the recommendation agent. propose catalog actions only."

abbrev pub answer_for : Text → Role → String → Fields
answer_for t Role.triage user = triage t user
answer_for t Role.investigation user = investigate t user
answer_for t Role.recommendation user = recommend t user

-- Where `lower` treats the prompts as Python does, the offline model answers each agent's system
-- prompt in that agent's role, whatever the user's part is.
pub respond_value-answer_for :
    (t : Text) (role : Role) (user : String)
    → t.lower (system_of role) ≡ lower_system_of role
    → respond_value t (system_of role) user ≡ answer_for t role user
unfolding respond_value contains
respond_value-answer_for t Role.triage user h = rw h refl
respond_value-answer_for t Role.investigation user h = rw h refl
respond_value-answer_for t Role.recommendation user h = rw h refl

-- An offline investigation whose prompt cites nothing has the confidence 0.4, and with it the
-- safety gate, while the budget lasts, recommends.
pub ungrounded_recommended :
    (t : Text) (user : String) (parse : String → Option ℤ) (state : IncidentState)
    → t.bracketed user ≡ []
    → (c : ℤ) × (to_float parse (get_or "confidence" (Json.float (pos 0)) (investigate t user))
        ≡ some c)
      × ((gate_on none (record state { confidence = some c })).decision ≡ some Decided.recommend)
unfolding investigate get_or get to_float gate_on
ungrounded_recommended t user parse state h = (pos 400000, rw h refl, refl)
