-- ===== src/Metrics/Laws.antt =====
-- The calls of src/aegis_common/metrics.py never make a service raise.
use aegis_project.Prelude.{
  ℕ, ◌≡◌, refl, ap, ◌∙◌, sym, String, Bool, true, false, some, List, [], ◌∷◌, ◌++◌, map,
}
use mathlib.Core.List.{append_assoc, append-nil}
use aegis_project.Metrics.{
  Metrics, setup_metrics, Use, agent_iterations, llm_tokens, time_to_first_hypothesis,
  actions_executed, actions_rejected, use_metric, use_all,
}

abbrev pub name_of : Use → String
name_of agent_iterations = "agent_iterations"
name_of llm_tokens = "llm_tokens"
name_of time_to_first_hypothesis = "time_to_first_hypothesis"
name_of actions_executed = "actions_executed"
name_of actions_rejected = "actions_rejected"

-- What the calls leave: nothing when telemetry is off, and else one value for each call.
abbrev pub entries : Bool → List (Use × ℕ) → List (String × ℕ)
entries false us = []
entries true us = map (λ (u : Use × ℕ). (name_of u.0, u.1)) us

-- The metrics after a start with or without telemetry, with a log.
abbrev pub metrics_with : Bool → List (String × ℕ) → Metrics
metrics_with enabled log = setup_metrics enabled (record { instruments = []; recorded = log })

use_metric-off :
    (u : Use) (v : ℕ) (log : List (String × ℕ))
    → use_metric u v (metrics_with false log) ≡ some (metrics_with false log)
unfolding use_metric setup_metrics
use_metric-off agent_iterations v log = refl
use_metric-off llm_tokens v log = refl
use_metric-off time_to_first_hypothesis v log = refl
use_metric-off actions_executed v log = refl
use_metric-off actions_rejected v log = refl

use_metric-on :
    (u : Use) (v : ℕ) (log : List (String × ℕ))
    → use_metric u v (metrics_with true log) ≡ some (metrics_with true (log ++ (name_of u, v) ∷ []))
unfolding use_metric setup_metrics
use_metric-on agent_iterations v log = refl
use_metric-on llm_tokens v log = refl
use_metric-on time_to_first_hypothesis v log = refl
use_metric-on actions_executed v log = refl
use_metric-on actions_rejected v log = refl

-- Whatever the services record, no call raises: with telemetry every value is recorded under its
-- name, in order, and without it nothing is.
pub use_all-entries :
    (enabled : Bool) (us : List (Use × ℕ)) (log : List (String × ℕ))
    → use_all us (metrics_with enabled log)
      ≡ some (metrics_with enabled (log ++ entries enabled us))
unfolding use_all
use_all-entries false [] log = ap (λ l. some (metrics_with false l)) (sym (append-nil log))
use_all-entries true [] log = ap (λ l. some (metrics_with true l)) (sym (append-nil log))
use_all-entries false ((u, v) ∷ us) log =
    rw (use_all, use_metric-off u v log) (use_all-entries false us log)
use_all-entries true ((u, v) ∷ us) log =
    rw (use_all, use_metric-on u v log)
      (use_all-entries true us (log ++ (name_of u, v) ∷ [])
        ∙ ap (λ l. some (metrics_with true l))
            (append_assoc log ((name_of u, v) ∷ []) (entries true us)))
