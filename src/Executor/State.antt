-- ===== src/Executor/State.antt =====
-- What a run of the action executor reads and changes.
use aegis_project.Prelude.{ℕ, List, [], ◌∷◌, ◌++◌}
use aegis_project.Events.{IncidentEvent}
use aegis_project.Reliability.Breaker.{Breaker}
use aegis_project.Store.{Env, Db}
use aegis_project.Executor.Runtime.{Runtime}

-- The database, the infrastructure's circuit breaker, the target, the published events in order,
-- and how often a clock was read.
pub record State (env : Env) (rt : Runtime env.crypto) : Type 0 where
  pub db : Db env
  pub breaker : Breaker
  pub target : rt.Target
  pub bus : List (IncidentEvent env.crypto.Digest)
  pub reads : ℕ

-- The wall clock and the monotonic clock: what they show at each reading.
pub record Clocks : Type 0 where
  pub wall : ℕ → ℕ
  pub mono : ℕ → ℕ

module _ {env : Env} {rt : Runtime env.crypto} where
  unfoldable pub publish : IncidentEvent env.crypto.Digest → State env rt → State env rt
  publish e s = record s { bus = s.bus ++ e ∷ [] }
