-- ===== src/Metrics.antt =====
-- src/aegis_common/metrics.py: the instruments, and what the services record with them.
pub mod Laws
use aegis_project.Prelude.{
  ℕ, String, Bool, true, false, Option, none, some, List, [], ◌∷◌, ◌++◌, str_eq, if◌then◌else◌,
}

pub data Instrument : Type 0 where
  counter histogram : Instrument

-- `_instruments`, and what was recorded under the names of the instruments, in order.
pub record Metrics : Type 0 where
  pub instruments : List (String × Instrument)
  pub recorded : List (String × ℕ)

-- `setup_metrics`, on `otel_enabled`
unfoldable pub setup_metrics : Bool → Metrics → Metrics
setup_metrics false m = m
setup_metrics true m = record m {
  instruments =
      ("signals_ingested", counter)
      ∷ ("signals_deduplicated", counter)
      ∷ ("incidents_opened", counter)
      ∷ ("agent_iterations", counter)
      ∷ ("llm_tokens", counter)
      ∷ ("actions_executed", counter)
      ∷ ("actions_rejected", counter)
      ∷ ("time_to_first_hypothesis", histogram)
      ∷ [];
}

-- `_instruments.get(name)`
abbrev pub find_instrument : String → List (String × Instrument) → Option Instrument
find_instrument name [] = none
find_instrument name ((n, i) ∷ rest) = if str_eq n name then some i else find_instrument name rest

-- `inst.add`, which only a counter has, and `inst.record`, which only a histogram has; none where
-- the attribute is missing.
abbrev pub add : String → ℕ → Option Instrument → Metrics → Option Metrics
add name value none m = some m
add name value (some counter) m = some (record m { recorded = m.recorded ++ (name, value) ∷ [] })
add name value (some histogram) m = none

abbrev pub record_value : String → ℕ → Option Instrument → Metrics → Option Metrics
record_value name value none m = some m
record_value name value (some counter) m = none
record_value name value (some histogram) m =
    some (record m { recorded = m.recorded ++ (name, value) ∷ [] })

-- `incr`
unfoldable pub incr : String → ℕ → Metrics → Option Metrics
incr name value m = add name value (find_instrument name m.instruments) m

-- `observe`
unfoldable pub observe : String → ℕ → Metrics → Option Metrics
observe name value m = record_value name value (find_instrument name m.instruments) m

-- The calls that the services make: those of the orchestrator after a run, of the executor after
-- an action and on an escalation, and of the decision point.
pub data Use : Type 0 where
  agent_iterations llm_tokens time_to_first_hypothesis actions_executed actions_rejected : Use

unfoldable pub use_metric : Use → ℕ → Metrics → Option Metrics
unfolding incr observe
use_metric agent_iterations v m = incr "agent_iterations" v m
use_metric llm_tokens v m = incr "llm_tokens" v m
use_metric time_to_first_hypothesis v m = observe "time_to_first_hypothesis" v m
use_metric actions_executed v m = incr "actions_executed" v m
use_metric actions_rejected v m = incr "actions_rejected" v m

unfoldable pub use_all : List (Use × ℕ) → Metrics → Option Metrics
unfolding use_metric
use_all [] m = some m
use_all ((u, v) ∷ us) m = elim (use_metric u v m) [ none ↦ none | some m' ↦ use_all us m' ]
