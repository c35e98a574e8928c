-- ===== src/Reliability/Budget/Laws.antt =====
-- What `Budget.exhausted` (src/aegis_common/reliability.py) reports, and that it never recovers.
use aegis_project.Prelude.{ℕ, ◌+◌, ◌≤◌, ◌<◌, ◌≡◌, ◌≢◌, ◌↔◌, true, none, List, [], ◌∷◌, arith}
use aegis_project.Prelude.Int.{ℤ}
use aegis_project.Reliability.Budget.{Budget, charge_iteration, charge_tokens, exhausted}

-- The budget reports no reason exactly when fewer iterations than allowed were charged, fewer
-- tokens than allowed were charged, and the clock of a started budget is before its end.
pub exhausted_exact :
    (now : ℕ) (b : Budget)
    → (exhausted now b ≡ none) ↔ (
        (b.iterations < b.max_iterations)
        × (b.tokens < b.max_tokens)
        × (b.started ≡ true → now < b.start_time + b.wallclock))
unfolding exhausted
exhausted_exact now b = ground arith

-- What an agent may do with a started budget.
pub data Charge : Type 0 where
  iteration : Charge
  token_count : ℤ → Charge

unfoldable pub charge : Charge → Budget → Budget
unfolding charge_iteration charge_tokens
charge Charge.iteration b = charge_iteration b
charge (Charge.token_count n) b = charge_tokens n b

unfoldable pub charge_all : List Charge → Budget → Budget
charge_all [] b = b
charge_all (c ∷ cs) b = charge_all cs (charge c b)

-- One charge at a later clock reading leaves an exhausted budget exhausted.
charge-exhausted :
    (c : Charge) (now later : ℕ) (b : Budget)
    → now ≤ later
    → exhausted now b ≢ none
    → exhausted later (charge c b) ≢ none
unfolding exhausted charge
charge-exhausted Charge.iteration now later b le h = ground arith
charge-exhausted (Charge.token_count n) now later b le h = ground arith

later-exhausted :
    (now later : ℕ) (b : Budget) → now ≤ later → exhausted now b ≢ none → exhausted later b ≢ none
unfolding exhausted
later-exhausted now later b le h = ground arith

-- A budget that is exhausted stays exhausted at every later reading of the clock, whatever
-- iterations and tokens (of any sign) are charged in between.
pub exhausted_stays :
    (cs : List Charge) (now later : ℕ) (b : Budget)
    → now ≤ later
    → exhausted now b ≢ none
    → exhausted later (charge_all cs b) ≢ none
unfolding charge_all
exhausted_stays [] now later b le h = later-exhausted now later b le h
exhausted_stays (c ∷ cs) now later b le h =
    exhausted_stays cs later later (charge c b) (omega arith) (charge-exhausted c now later b le h)
