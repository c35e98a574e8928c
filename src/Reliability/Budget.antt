-- ===== src/Reliability/Budget.antt =====
-- `Budget` of src/aegis_common/reliability.py.
pub mod Laws
use aegis_project.Prelude.{ℕ, ◌+◌, Bool, true, false, ◌&&◌, Option, none, some, leb, if◌then◌else◌}
use aegis_project.Prelude.Int.{ℤ, pos_part}

pub record Budget : Type 0 where
  pub max_iterations : ℕ
  pub wallclock : ℕ
  pub max_tokens : ℕ
  pub start_time : ℕ
  pub iterations : ℕ
  pub tokens : ℕ
  pub started : Bool

-- The three texts that `exhausted` formats, with the numbers that they show.
pub data Reason : Type 0 where
  iteration_budget : ℕ → ℕ → Reason
  token_budget : ℕ → ℕ → Reason
  wallclock_budget : ℕ → ℕ → Reason

-- The dataclass constructor, with the defaults of its private fields.
unfoldable pub new_budget : ℕ → ℕ → ℕ → Budget
new_budget max_iterations wallclock max_tokens = record {
  max_iterations = max_iterations;
  wallclock = wallclock;
  max_tokens = max_tokens;
  start_time = 0;
  iterations = 0;
  tokens = 0;
  started = false;
}

unfoldable pub start : ℕ → Budget → Budget
start now b = record b { start_time = now; started = true }

unfoldable pub charge_iteration : Budget → Budget
charge_iteration b = record b { iterations = b.iterations + 1 }

-- `max(0, n)` of a Python int
unfoldable pub charge_tokens : ℤ → Budget → Budget
charge_tokens n b = record b { tokens = b.tokens + pos_part n }

-- `elapsed() >= wallclock_seconds`, without the difference
abbrev pub wallclock_spent : ℕ → Budget → Bool
wallclock_spent now b = b.started && leb (b.start_time + b.wallclock) now

unfoldable pub exhausted : ℕ → Budget → Option Reason
exhausted now b =
    if leb b.max_iterations b.iterations
    then some (Reason.iteration_budget b.iterations b.max_iterations)
    else if leb b.max_tokens b.tokens
    then some (Reason.token_budget b.tokens b.max_tokens)
    else if wallclock_spent now b
    then some (Reason.wallclock_budget now b.wallclock)
    else none
