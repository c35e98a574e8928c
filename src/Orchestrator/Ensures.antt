-- ===== src/Orchestrator/Ensures.antt =====
-- What a computation of the agents ensures of its result, with a rule for each construct.
use aegis_project.Prelude.{Option, none, some}
use aegis_project.Orchestrator.Agents.{Context, Run, ◌>>=◌}

abbrev pub Holds : {A : Type 0} → (A → Type 0) → Option A → Type 0
Holds P none = Unit
Holds P (some a) = P a

-- Whenever it does not raise, its result satisfies the predicate.
abbrev pub Ensures : {A : Type 0} → (A → Type 0) → Run A → Type 0
Ensures P m = (c : Context) → Holds P (m c).0

bound :
    {A B : Type 0} (P : A → Type 0) (Q : B → Type 0) (f : A → Run B) (r : Option A) (c : Context)
    → ((a : A) → P a → Ensures Q (f a))
    → Holds P r
    → Holds Q (((λ _. (r, c)) >>= f) c).0
unfolding ◌>>=◌
bound P Q f none c k h = tt
bound P Q f (some a) c k h = k a h c

pub Ensures-bind :
    {A B : Type 0} (P : A → Type 0) (Q : B → Type 0) (m : Run A) (f : A → Run B)
    → Ensures P m
    → ((a : A) → P a → Ensures Q (f a))
    → Ensures Q (m >>= f)
unfolding ◌>>=◌
Ensures-bind P Q m f h k c = bound P Q f (m c).0 (m c).1 k (h c)

abbrev pub Any : {A : Type 0} → A → Type 0
Any a = Unit

pub Ensures-Any : {A : Type 0} (m : Run A) → Ensures Any m
Ensures-Any m c = any_result (m c).0
  where
    any_result : {A : Type 0} (r : Option A) → Holds Any r
    any_result none = tt
    any_result (some a) = tt

-- The rule for a step of whose result nothing is needed.
pub Ensures-then :
    {A B : Type 0} (Q : B → Type 0) (m : Run A) (f : A → Run B)
    → ((a : A) → Ensures Q (f a))
    → Ensures Q (m >>= f)
Ensures-then Q m f k = Ensures-bind Any Q m f (Ensures-Any m) (λ a _. k a)
