-- ===== src/Reliability/Breaker/Laws.antt =====
-- The circuit breaker (src/aegis_common/reliability.py) over sequences of guarded calls.
use aegis_project.Prelude.{
  ℕ, ◌+◌, ◌≤◌, ◌<◌, ◌≡◌, ◌≢◌, ◌↔◌, refl, true, false, List, [], ◌∷◌, arith, length, All,
}
use aegis_project.Reliability.Breaker.{
  closed, opened, half_open, Breaker, Call, new_breaker, guard, guarded_call,
}

-- A closed breaker has counted fewer failures than its threshold, any other at least as many.
pub record IsValid (b : Breaker) : Type 0 where
  pub trips : 0 < b.threshold
  pub below : b.state ≡ closed → b.failures < b.threshold
  pub above : b.state ≢ closed → b.threshold ≤ b.failures

pub new_breaker-IsValid : (n cooldown : ℕ) → 0 < n → IsValid (new_breaker n cooldown)
unfolding new_breaker
new_breaker-IsValid n cooldown h = ground arith

pub guarded_call-IsValid : (c : Call) (b : Breaker) → IsValid b → IsValid (guarded_call c b).1
unfolding guarded_call
guarded_call-IsValid c b h = ground arith

-- The calls in the order they are made.
unfoldable pub run_calls : List Call → Breaker → Breaker
run_calls [] b = b
run_calls (c ∷ cs) b = run_calls cs (guarded_call c b).1

-- From a breaker with a positive threshold whose count agrees with its state, whatever calls are
-- made at whatever times and with whatever outcomes, the count agrees with the state.
pub run_calls-IsValid : (cs : List Call) (b : Breaker) → IsValid b → IsValid (run_calls cs b)
unfolding run_calls
run_calls-IsValid [] b h = h
run_calls-IsValid (c ∷ cs) b h =
    run_calls-IsValid cs (guarded_call c b).1 (guarded_call-IsValid c b h)

-- `guard` rejects exactly an open breaker whose cooldown has not passed, and a rejection leaves
-- the breaker as it was; when it lets a call through, only the state field may have changed, from
-- open to half open.
pub guard_exact :
    (now : ℕ) (b : Breaker)
    → (((guard now b).0 ≡ false) ↔ ((b.state ≡ opened) × (now < b.opened_at + b.cooldown)))
      × ((guard now b).0 ≡ false → (guard now b).1 ≡ b)
      × ((guard now b).0 ≡ true
          → ((guard now b).1.failures ≡ b.failures)
            × ((guard now b).1.opened_at ≡ b.opened_at)
            × (b.state ≢ opened → (guard now b).1.state ≡ b.state)
            × (b.state ≡ opened → (guard now b).1.state ≡ half_open))
unfolding guard
guard_exact now b = ground arith

abbrev Fails : Call → Type 0
Fails c = c.succeeds ≡ false

-- A failing call on a closed breaker counts one failure.
failing_call :
    (c : Call) (b : Breaker)
    → Fails c
    → b.state ≡ closed
    → b.failures + 1 < b.threshold
    → ((guarded_call c b).1.state ≡ closed)
      × ((guarded_call c b).1.failures ≡ b.failures + 1)
      × ((guarded_call c b).1.threshold ≡ b.threshold)
unfolding guarded_call
failing_call c b f s h = ground arith

last_failing_call :
    (c : Call) (b : Breaker)
    → Fails c
    → b.state ≡ closed
    → b.threshold ≤ b.failures + 1
    → ((guarded_call c b).1.state ≡ opened) × ((guarded_call c b).1.opened_at ≡ c.done)
unfolding guarded_call
last_failing_call c b f s h = ground arith

-- A closed breaker on which fewer calls fail in a row than its threshold has room for is still
-- closed and has counted each of them.
pub stays_closed :
    (cs : List Call) (b : Breaker)
    → All Fails cs
    → b.state ≡ closed
    → b.failures + length cs < b.threshold
    → ((run_calls cs b).state ≡ closed) × ((run_calls cs b).failures ≡ b.failures + length cs)
unfolding run_calls
stays_closed [] b f s h = (s, omega arith)
stays_closed (c ∷ cs) b f s h =
    let (s', counted, same) = failing_call c b f.0 s (omega arith) in
    let (end, total) = stays_closed cs (guarded_call c b).1 f.1 s' (omega arith) in
    (end, omega arith)

abbrev snoc : List Call → Call → List Call
snoc [] c = c ∷ []
snoc (d ∷ cs) c = d ∷ snoc cs c

-- When the calls that fail in a row reach the threshold of a closed breaker, the last of them
-- opens it at the moment that call is recorded.
pub trips_at_threshold :
    (cs : List Call) (c : Call) (b : Breaker)
    → All Fails cs
    → Fails c
    → b.state ≡ closed
    → b.failures + length cs + 1 ≡ b.threshold
    → ((run_calls (snoc cs c) b).state ≡ opened) × ((run_calls (snoc cs c) b).opened_at ≡ c.done)
unfolding run_calls
trips_at_threshold [] c b f fc s h = last_failing_call c b fc s (omega arith)
trips_at_threshold (d ∷ cs) c b f fc s h =
    let (s', counted, same) = failing_call d b f.0 s (omega arith) in
    trips_at_threshold cs c (guarded_call d b).1 f.1 fc s' (omega arith)

rejected_call :
    (c : Call) (b : Breaker)
    → b.state ≡ opened
    → c.at < b.opened_at + b.cooldown
    → guarded_call c b ≡ (false, b)
unfolding guarded_call
rejected_call c b s h = ground arith

-- While an open breaker cools down, every call is rejected, however many are tried, and the
-- breaker stays as it is.
pub fails_fast :
    (cs : List Call) (b : Breaker)
    → b.state ≡ opened
    → All (λ c. c.at < b.opened_at + b.cooldown) cs
    → All (λ c. (guarded_call c b).0 ≡ false) cs × (run_calls cs b ≡ b)
unfolding run_calls
fails_fast [] b s h = (tt, refl)
fails_fast (c ∷ cs) b s h =
    let r = rejected_call c b s h.0 in
    let (rest, same) = fails_fast cs b s h.1 in ((ap0 r, rest), rw r same)
  where
    ap0 : guarded_call c b ≡ (false, b) → (guarded_call c b).0 ≡ false
    ap0 e = cc

-- The first call after the cooldown of a breaker whose count agrees with its state is let
-- through: its success closes the breaker with no failures counted, its failure opens the
-- breaker again from that moment.
pub probe_decides :
    (c : Call) (b : Breaker)
    → IsValid b
    → b.state ≡ opened
    → b.opened_at + b.cooldown ≤ c.at
    → ((guarded_call c b).0 ≡ true)
      × (c.succeeds ≡ true
          → ((guarded_call c b).1.state ≡ closed) × ((guarded_call c b).1.failures ≡ 0))
      × (c.succeeds ≡ false
          → ((guarded_call c b).1.state ≡ opened) × ((guarded_call c b).1.opened_at ≡ c.done))
unfolding guarded_call
probe_decides c b v s h = ground arith
