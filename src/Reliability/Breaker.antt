-- ===== src/Reliability/Breaker.antt =====
-- `CircuitBreaker` of src/aegis_common/reliability.py. Clock readings are arguments, in ticks
-- of one unit, and `now - opened_at >= cooldown` is written without the difference.
pub mod Laws
use aegis_project.Prelude.{ℕ, ◌+◌, Bool, true, false, leb, if◌then◌else◌}

pub data BreakerState : Type 0 where
  closed opened half_open : BreakerState

pub record Breaker : Type 0 where
  pub threshold : ℕ
  pub cooldown : ℕ
  pub failures : ℕ
  pub state : BreakerState
  pub opened_at : ℕ

-- `__init__`
unfoldable pub new_breaker : ℕ → ℕ → Breaker
new_breaker threshold cooldown = record {
  threshold = threshold;
  cooldown = cooldown;
  failures = 0;
  state = closed;
  opened_at = 0;
}

refreshed : BreakerState → Bool → BreakerState
refreshed opened true = half_open
refreshed opened false = opened
refreshed closed _ = closed
refreshed half_open _ = half_open

-- The property `state`, whose read also writes: an open breaker half-opens after the cooldown.
unfoldable pub read_state : ℕ → Breaker → Breaker
unfolding refreshed
read_state now b = record b { state = refreshed b.state (leb (b.opened_at + b.cooldown) now) }

abbrev pub is_open : BreakerState → Bool
is_open opened = true
is_open closed = false
is_open half_open = false

-- `allow`, with the breaker that the read of `state` leaves.
unfoldable pub allow : ℕ → Breaker → Bool × Breaker
unfolding read_state
allow now b = let b' = read_state now b in (if is_open b'.state then false else true, b')

unfoldable pub record_success : Breaker → Breaker
record_success b = record b { failures = 0; state = closed }

unfoldable pub record_failure : ℕ → Breaker → Breaker
record_failure now b =
    let counted = record b { failures = b.failures + 1 } in
    if leb b.threshold (b.failures + 1)
    then record counted { state = opened; opened_at = now }
    else counted

-- `guard`: false stands for the raised `CircuitOpenError`.
unfoldable pub guard : ℕ → Breaker → Bool × Breaker
unfolding allow
guard now b = allow now b

-- One guarded call as the clients write it: `guard`, then the call, then the record of its
-- outcome at a later reading of the clock. A rejected call records nothing.
pub record Call : Type 0 where
  pub at : ℕ
  pub done : ℕ
  pub succeeds : Bool

unfoldable pub guarded_call : Call → Breaker → Bool × Breaker
unfolding guard record_success record_failure
guarded_call c b =
    let (ok, b') = guard c.at b in
    if ok
    then (true, if c.succeeds then record_success b' else record_failure c.done b')
    else (false, b')
