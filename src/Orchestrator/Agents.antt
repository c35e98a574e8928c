-- ===== src/Orchestrator/Agents.antt =====
-- src/aegis_services/orchestrator/agents.py: the guarded call of the model and the three agents.
-- The model and the retriever are arguments; as their prompts are built from the state, they are
-- given the state.
use aegis_project.Prelude.{
  ℕ, ◌+◌, String, Bool, false, ◌||◌, Option, none, some, str_eq, if◌then◌else◌,
}
use aegis_project.Prelude.Int.{ℤ, pos}
use aegis_project.Json.{Json, nil, Fields, end, field, get, get_or, truthy, or_default}
use aegis_project.Reliability.Breaker.{Breaker, guard, record_success, record_failure}
use aegis_project.Reliability.Budget.{Budget, charge_iteration, charge_tokens}
use aegis_project.Orchestrator.State.{IncidentState}
use aegis_project.Orchestrator.Reading.{
  Evidence, texts_of, evidence_of, merged_services, to_float, has_length,
}

pub data Role : Type 0 where
  triage investigation recommendation : Role

-- A response of the model: its token count, its text as JSON if it is that, and the first 500
-- characters of the text.
pub record Reply : Type 0 where
  pub total_tokens : ℤ
  pub parsed : Option Json
  pub text : String

-- The model, the retrieval service's response (`none` where they raise), `float` on a text, and
-- the clock.
pub record Deps : Type 0 where
  pub complete : Role → IncidentState → Option Reply
  pub post : IncidentState → Option Json
  pub parse_float : String → Option ℤ
  pub clock : ℕ → ℕ

-- What the agents change beside the state: the two breakers and the budget.
pub record Context : Type 0 where
  pub breaker : Breaker
  pub rag_breaker : Breaker
  pub budget : Budget
  pub reads : ℕ

-- A computation that may raise; what it did to the context stays done.
abbrev pub Run : Type 0 → Type 0
Run A = Context → Option A × Context

infixl 5 ◌>>=◌ ◌>>◌
unfoldable pub ◌>>=◌ : {A B : Type 0} → Run A → (A → Run B) → Run B
◌>>=◌ m f c = let (r, c') = m c in elim r [ none ↦ (none, c') | some a ↦ f a c' ]

abbrev pub ◌>>◌ : {B : Type 0} → Run (Unit {0}) → Run B → Run B
m >> k = m >>= λ _. k

abbrev pub pure : {A : Type 0} → A → Run A
pure a c = (some a, c)

abbrev pub or_raise : {A : Type 0} → Option A → Run A
or_raise r c = (r, c)

abbrev pub charge : Run (Unit {0})
charge c = (some tt, record c { budget = charge_iteration c.budget })

-- `json.loads`, or the text as a summary; a value that is no dictionary makes `.get` raise.
unfoldable pub answer : Reply → Option Fields
answer r = elim r.parsed [
  | none ↦ some (field "summary" (Json.text r.text) end)
  | some (Json.obj d) ↦ some d
  | some _ ↦ none
]

module _ (deps : Deps) where
  -- The call under the breaker.
  unfoldable pub call_model : Option Reply → Run Reply
  call_model none c = (
    none,
    record c { breaker = record_failure (deps.clock c.reads) c.breaker; reads = c.reads + 1 },
  )
  call_model (some r) c = (
    some r,
    record c { breaker = record_success c.breaker; budget = charge_tokens r.total_tokens c.budget },
  )

  -- `_ask`
  unfoldable pub ask : Role → IncidentState → Run Fields
  unfolding call_model answer
  ask role state c =
      let (allowed, b) = guard (deps.clock c.reads) c.breaker in
      let c' : Context = record c { breaker = b; reads = c.reads + 1 } in
      let called : Run Fields = (do
        r ← call_model (deps.complete role state)
        or_raise (answer r)) in
      if allowed then called c' else (none, c')

-- `x in ("sev1", "sev2")`
abbrev is_severe : Json → Bool
is_severe (Json.text s) = str_eq s "sev1" || str_eq s "sev2"
is_severe _ = false

abbrev pub check : Bool → Run (Unit {0})
check b = or_raise (if b then some tt else none)

module _ (deps : Deps) where
  -- The call of the retrieval service under its breaker.
  unfoldable pub call_rag : Option Json → Run Json
  call_rag none c = (
    none,
    record c {
      rag_breaker = record_failure (deps.clock c.reads) c.rag_breaker;
      reads = c.reads + 1;
    },
  )
  call_rag (some v) c = (some v, record c { rag_breaker = record_success c.rag_breaker })

  -- `_make_retriever`: its `retrieve`
  unfoldable pub retrieve : IncidentState → Run Evidence
  unfolding call_rag evidence_of
  retrieve state c =
      let (allowed, b) = guard (deps.clock c.reads) c.rag_breaker in
      let c' : Context = record c { rag_breaker = b; reads = c.reads + 1 } in
      let called : Run Evidence = (do r ← call_rag (deps.post state); or_raise (evidence_of r)) in
      if allowed then called c' else (none, c')

  unfoldable pub triage_agent : IncidentState → Run IncidentState
  unfolding get get_or texts_of merged_services ask
  triage_agent state = do
    charge
    out ← ask deps Role.triage state
    services ← or_raise (texts_of (get_or "services" (Json.arr nil) out))
    let severity = or_default Json.null (get "severity" out)
    pure (record state {
      triage_summary = some (get_or "summary" (Json.text "") out);
      urgent = some (truthy (or_default (Json.bool (is_severe state.severity)) (get "urgent" out)));
      severity = if truthy severity then severity else state.severity;
      services = merged_services state.services services;
    })

  unfoldable pub investigation_agent : IncidentState → Run IncidentState
  unfolding get get_or to_float texts_of retrieve ask
  investigation_agent state = do
    charge
    ev ← retrieve state
    score ←
        or_raise
          (to_float deps.parse_float (or_default (Json.float (pos 0)) ev.best_precedent_score))
    let cited = or_default (Json.arr nil) ev.citations
    let grounded : IncidentState = record state {
      citations = some cited;
      has_precedent = some (truthy (or_default (Json.bool false) ev.has_precedent));
      best_precedent_score = some score;
    }
    shown ← or_raise (texts_of cited)
    out ← ask deps Role.investigation grounded
    confidence ← or_raise (to_float deps.parse_float (get_or "confidence" (Json.float (pos 0)) out))
    pure (record grounded {
      root_cause = some (get_or "root_cause" (Json.text "undetermined") out);
      confidence = some confidence;
      evidence_refs = some (get_or "evidence_refs" cited out);
    })

  unfoldable pub recommendation_agent : IncidentState → Run IncidentState
  unfolding get get_or texts_of ask
  recommendation_agent state = do
    charge
    shown ← or_raise (texts_of (or_default (Json.arr nil) state.evidence_refs))
    out ← ask deps Role.recommendation state
    check (has_length (get_or "plan" (Json.arr nil) out))
    pure (record state {
      plan = some (get_or "plan" (Json.arr nil) out);
      rationale = some (get_or "rationale" (Json.text "") out);
    })
