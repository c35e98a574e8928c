-- ===== src/LanguageModel.antt =====
-- `RuleBasedLLM` of src/aegis_common/llm.py. The regular expressions, `str.lower` and `json.dumps`
-- are arguments; confidences are counted in millionths.
pub mod Laws
pub mod Client
pub mod Charges
use Prim.Native.String.{String}
use aegis_project.Prelude.{
  ℕ, ◌+◌, ◌/◌, max, Bool, true, false, ◌||◌, List, [], ◌∷◌, length, take, any, sort_by, str_eq,
  if◌then◌else◌,
}
use aegis_project.Prelude.Int.{pos}
use aegis_project.Json.{Json, Items, nil, cons, Fields, end, field}
use aegis_project.Schemas.{◌⧺◌, text_leb}
use aegis_project.Texts.{text_length, contains, prefix_text}

pub record LlmResponse : Type 0 where
  pub text : String
  pub prompt_tokens : ℕ
  pub completion_tokens : ℕ

-- `LLMResponse.total_tokens`
unfoldable pub total_tokens : LlmResponse → ℕ
total_tokens r = r.prompt_tokens + r.completion_tokens

-- `_estimate_tokens`
unfoldable pub estimate_tokens : String → ℕ
unfolding text_length
estimate_tokens text = max 1 (text_length text / 4)

-- `str.lower`, the groups of `service[=:\s]+([a-z0-9\-_]+)`, the matches of `\[[^\]]+\]`,
-- `json.dumps`, and the text of a number.
pub record Text : Type 0 where
  pub lower : String → String
  pub service_names : String → List String
  pub bracketed : String → List String
  pub dumps : Fields → String
  pub decimal : ℕ → String

-- `_SEV`
abbrev pub severity_keywords : List (String × List String)
severity_keywords =
    ("sev1", "outage" ∷ "down" ∷ "critical" ∷ "exhausted" ∷ "5xx" ∷ "crash" ∷ [])
    ∷ ("sev2", "latency" ∷ "slow" ∷ "degraded" ∷ "error rate" ∷ "timeout" ∷ [])
    ∷ ("sev3", "warning" ∷ "elevated" ∷ "minor" ∷ [])
    ∷ []

-- The loop over the severities: the first with a keyword in the text.
unfoldable pub severity_in : String → List (String × List String) → String
unfolding contains
severity_in low [] = "sev3"
severity_in low ((sev, kws) ∷ rest) =
    if any (λ k. contains k low) kws then sev else severity_in low rest

abbrev pub text_list : List String → Items
text_list [] = nil
text_list (s ∷ ss) = cons (Json.text s) (text_list ss)

-- `set`: each text once.
abbrev pub distinct : List String → List String
distinct [] = []
distinct (s ∷ ss) = if any (str_eq s) ss then distinct ss else s ∷ distinct ss

-- The object of an action with its parameters.
abbrev pub action_of : String → Fields → Json
action_of name params =
    Json.obj (field "action" (Json.text name) (field "params" (Json.obj params) end))

-- The action that fits a description.
unfoldable pub recommended_action : String → Json
unfolding contains
recommended_action low =
    if contains "deployment" low || contains "pod" low || contains "restart" low
    then action_of "restart_deployment"
        (field "namespace" (Json.text "default") (field "deployment" (Json.text "api") end))
    else (if contains "scale" low || contains "exhausted" low
        then action_of "scale_replicas" (
            field "namespace" (Json.text "default")
              (field "deployment" (Json.text "api") (field "replicas" (Json.int (pos 5)) end)))
        else action_of "clear_cache"
            (field "namespace" (Json.text "default") (field "cache" (Json.text "default") end)))

module _ (t : Text) where
  -- `_triage`
  unfoldable pub triage : String → Fields
  unfolding severity_in
  triage user =
      let low = t.lower user in
      let severity = severity_in low severity_keywords in
      field "severity" (Json.text severity) (
        field "services" (Json.arr (text_list (sort_by text_leb (distinct (t.service_names low)))))
          (field "summary" (Json.text ("Triaged as " ⧺ severity))
            (field "urgent" (Json.bool (str_eq severity "sev1" || str_eq severity "sev2")) end)))

  abbrev pub confidence_for : List String → Json
  confidence_for [] = Json.float (pos 400000)
  confidence_for (c ∷ cs) = Json.float (pos 820000)

  -- `_investigate`
  unfoldable pub investigate : String → Fields
  unfolding contains
  investigate user =
      let cites = t.bracketed user in
      let cause =
        if contains "exhausted" (t.lower user)
        then "resource exhaustion"
        else "service degradation" in
      field "root_cause" (Json.text cause) (
        field "confidence" (confidence_for cites) (
          field "evidence_refs" (Json.arr (text_list (take 5 cites))) (
            field "summary"
              (Json.text
                ("Likely " ⧺ cause ⧺ "; grounded in " ⧺ t.decimal (length cites) ⧺ " sources"))
              end)))

  -- `_recommend`
  unfoldable pub recommend : String → Fields
  unfolding recommended_action
  recommend user =
      field "plan" (Json.arr (cons (recommended_action (t.lower user)) nil))
        (field "rationale" (Json.text "Mapped diagnosis to lowest-risk catalog action") end)

  -- What `_respond` serializes.
  unfoldable pub respond_value : String → String → Fields
  unfolding triage investigate recommend contains prefix_text
  respond_value system user =
      let role = t.lower system in
      if contains "triage" role
      then triage user
      else (if contains "investigat" role
          then investigate user
          else (if contains "recommend" role || contains "remediat" role
              then recommend user
              else field "summary" (Json.text (prefix_text 200 user)) end))

  -- `_respond`
  unfoldable pub respond : String → String → String
  unfolding respond_value
  respond system user = t.dumps (respond_value system user)

  -- `RuleBasedLLM.complete`
  unfoldable pub complete : String → String → LlmResponse
  unfolding respond estimate_tokens
  complete system user =
      let text = respond system user in
      record {
        text = text;
        prompt_tokens = estimate_tokens (system ⧺ user);
        completion_tokens = estimate_tokens text;
      }
