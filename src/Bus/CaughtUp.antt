-- ===== src/Bus/CaughtUp.antt =====
-- The consume loop of src/aegis_common/kafka.py when it is left running: it reaches the end of the
-- partition.
use mathlib.Core.Path.{subst}
use aegis_project.Prelude.{
  ℕ, zero, suc, ◌+◌, ◌≤◌, ◌<◌, ◌≡◌, Bool, All, inl, inr, refl, sym, ap, ◌∙◌, true, false, none,
  List, [], ◌∷◌, arith, take, length, get_elem?, Option-cases,
}
use aegis_project.Bus.{Consumer, Handler, Event, commit_if, step, run}
use aegis_project.Bus.Delivery.{
  Commits, Delivers, Subsequence, IsRecord, at_start, run-Delivers, steps-Delivers,
}
use aegis_project.Bus.Laws.{get_elem?-lt-length, poll_end, poll_returns, replay}

get_elem?-none : {R : Type 0} (xs : List R) (n : ℕ) → get_elem? xs n ≡ none → length xs ≤ n
get_elem?-none [] n h = omega arith
get_elem?-none (x ∷ xs) zero h = absurd (cc h)
get_elem?-none (x ∷ xs) (suc n) h = omega (arith, get_elem?-none xs n h)

take-length : {R : Type 0} (xs : List R) → take (length xs) xs ≡ xs
take-length [] = refl
take-length (x ∷ xs) = ap (λ ys. x ∷ ys) (take-length xs)

-- A round of the loop for each of the commits.
abbrev pub polls : {R : Type 0} → List Bool → List (Event R)
polls [] = []
polls (b ∷ bs) = Event.polled b ∷ polls bs

module _ {R S : Type 0} (handler : Handler R S)
    (total : (r : R) (s : S) → (handler r s).0 ≡ true) where
  -- The rounds leave the records and end at the last of them.
  abbrev AtEnd : Consumer R → Consumer R × S → Type 0
  AtEnd c p = (p.0.log ≡ c.log) × (p.0.position ≡ length c.log)

  returns : (r : R) (s : S) → handler r s ≡ (true, (handler r s).1)
  returns r s = ground (arith, total r s)

  log-commit_if : (b : Bool) (c : Consumer R) → (commit_if b c).log ≡ c.log
  log-commit_if true c = refl
  log-commit_if false c = refl

  position-commit_if : (b : Bool) (c : Consumer R) → (commit_if b c).position ≡ c.position
  position-commit_if true c = refl
  position-commit_if false c = refl

  polls-AtEnd :
      (bs : List Bool) (c d : Consumer R) (s : S)
      → d.log ≡ c.log
      → d.position ≤ length c.log
      → length c.log ≤ d.position + length bs
      → AtEnd c (run handler (polls bs) (d, s))
  unfolding run step
  polls-AtEnd [] c d s l h k = (l, omega (arith, h, k))
  polls-AtEnd (b ∷ bs) c d s l h k = elim (Option-cases (get_elem? d.log d.position)) [
    | inl e ↦
        let done : length c.log ≤ d.position = rw (sym l) (get_elem?-none d.log d.position e) in
        subst (λ p. AtEnd c (run handler (polls bs) p)) (sym (poll_end handler b d s e))
          (polls-AtEnd bs c d s l h (omega (arith, done)))
    | inr (r, e) ↦
        let more : d.position < length c.log =
          rw (sym l) (get_elem?-lt-length d.log d.position e) in
        let d1 : Consumer R = record d { position = d.position + 1 } in
        let at = position-commit_if b d1 in
        subst (λ p. AtEnd c (run handler (polls bs) p))
          (sym (poll_returns handler b r d s (handler r s).1 e (returns r s)))
          (polls-AtEnd bs c (commit_if b d1) (handler r s).1 (log-commit_if b d1 ∙ l)
            (omega (arith, at, more)) (omega (arith, at, k)))
  ]

  Commits-polls : (bs : List Bool) → All (λ b. b ≡ true) bs → All (Commits {R = R}) (polls bs)
  Commits-polls [] h = tt
  Commits-polls (b ∷ bs) h = (h.0, Commits-polls bs h.1)

  -- What a new group's consumer has handled when it has caught up: each record of the partition at
  -- least once and in order, and each exactly once where no commit failed.
  pub record Complete (once : Type 0) (log : List R) (s0 s : S) : Type 0 where
    pub handled : List R
    pub replayed : s ≡ replay handler handled s0
    pub at_least_once : Subsequence log handled
    pub from_log : All (IsRecord log) handled
    pub exactly : once → handled ≡ log

  -- While no handler raises, a reader of the partition that is polled as often as there are
  -- records left has handled the whole partition.
  pub polls-Complete :
      (es : List (Event R)) (bs : List Bool) (log : List R) (s0 : S)
      → let (c, s) = run handler es (at_start log, s0) in
        length c.log ≤ c.position + length bs
        → Complete
            (All Commits es × All (λ b. b ≡ true) bs)
            c.log
            s0
            (run handler (polls bs) (c, s)).1
  polls-Complete es bs log s0 k =
      let once = All Commits es × All (λ b. b ≡ true) bs in
      let p = run handler es (at_start log, s0) in
      let first = weaken (run-Delivers handler total es log s0) in
      let d = steps-Delivers handler total once s0 (polls bs) p (λ o. Commits-polls bs o.1) first in
      let (same, at_end) = polls-AtEnd bs p.0 p.0 p.1 refl first.in_log k in
      let q = run handler (polls bs) p in
      let whole : take q.0.position q.0.log ≡ p.0.log = rw (same, at_end) (take-length p.0.log) in
      record {
        handled = d.handled;
        replayed = d.replayed;
        at_least_once = subst (λ l. Subsequence l d.handled) whole d.at_least_once;
        from_log = subst (λ l. All (IsRecord l) d.handled) same d.from_log;
        exactly = λ o. (d.exactly o).1 ∙ whole;
      }
    where
      weaken :
          {p : Consumer R × S}
          → Delivers handler (All Commits es) s0 p
          → Delivers handler (All Commits es × All (λ b. b ≡ true) bs) s0 p
      weaken d = record {
        handled = d.handled;
        replayed = d.replayed;
        at_least_once = d.at_least_once;
        from_log = d.from_log;
        in_log = d.in_log;
        not_ahead = d.not_ahead;
        exactly = λ o. d.exactly o.0;
      }
