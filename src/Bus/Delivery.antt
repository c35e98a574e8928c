-- ===== src/Bus/Delivery.antt =====
-- What the consume loop of src/aegis_common/kafka.py delivers while no handler raises, whatever
-- becomes of the commits.
use aegis_project.Prelude.{
  ℕ, zero, suc, ◌+◌, ◌≤◌, ◌≡◌, inl, inr, refl, sym, ap, ◌∙◌, Bool, true, false, some, List, [], ◌∷◌,
  ◌++◌, arith, take, length, get_elem?, Option-cases, length-append, All,
}
use mathlib.Core.List.{append_assoc}
use aegis_project.Bus.{Consumer, Handler, commit_if, poll, restart, append_record, Event, step, run}
use aegis_project.Bus.Laws.{
  get_elem?-lt-length, take_snoc, take-append, replay, replay-append, poll_returns, poll_end,
}

module _ {R : Type 0} where
  -- The first list is what is left of the second when elements are left out.
  abbrev pub Subsequence : List R → List R → Type 0
  Subsequence [] ys = Unit
  Subsequence (x ∷ xs) ys =
      (before : List R) × (after : List R) × (ys ≡ before ++ x ∷ after) × Subsequence xs after

  Subsequence-snoc :
      (xs ys : List R) (r : R) → Subsequence xs ys → Subsequence (xs ++ r ∷ []) (ys ++ r ∷ [])
  Subsequence-snoc [] ys r h = (ys, [], refl, tt)
  Subsequence-snoc (x ∷ xs) ys r (before, after, e, h) = (
    before,
    after ++ r ∷ [],
    ap (λ l. l ++ r ∷ []) e ∙ append_assoc before (x ∷ after) (r ∷ []),
    Subsequence-snoc xs after r h,
  )

  Subsequence-take :
      (xs ys : List R) (m n : ℕ) → m ≤ n → Subsequence (take n xs) ys → Subsequence (take m xs) ys
  Subsequence-take xs ys zero n le h = tt
  Subsequence-take [] ys (suc m) n le h = tt
  Subsequence-take (x ∷ xs) ys (suc m) zero le h = absurd (omega arith)
  Subsequence-take (x ∷ xs) ys (suc m) (suc n) le (before, after, e, h) =
      (before, after, e, Subsequence-take xs after m n (omega arith) h)

  -- A record of a partition.
  abbrev pub IsRecord : List R → R → Type 0
  IsRecord log r = (n : ℕ) × (get_elem? log n ≡ some r)

  get_elem?-append :
      (xs ys : List R) (n : ℕ) {r : R} → get_elem? xs n ≡ some r → get_elem? (xs ++ ys) n ≡ some r
  get_elem?-append [] ys n h = cc
  get_elem?-append (x ∷ xs) ys zero h = h
  get_elem?-append (x ∷ xs) ys (suc n) h = get_elem?-append xs ys n h

  All_records-append :
      (log new hs : List R) → All (IsRecord log) hs → All (IsRecord (log ++ new)) hs
  All_records-append log new [] h = tt
  All_records-append log new (x ∷ hs) ((n, e), h) =
      ((n, get_elem?-append log new n e), All_records-append log new hs h)

  All-snoc : (P : R → Type 0) (hs : List R) (r : R) → All P hs → P r → All P (hs ++ r ∷ [])
  All-snoc P [] r h p = (p, tt)
  All-snoc P (x ∷ hs) r h p = (h.0, All-snoc P hs r h.1 p)

  -- A step whose commit, if it has one, succeeds.
  abbrev pub Commits : Event R → Type 0
  Commits (Event.polled commits) = commits ≡ true
  Commits _ = Unit

-- The consumer of a new group.
abbrev pub at_start : {R : Type 0} → List R → Consumer R
at_start log = record { log = log; position = 0; committed = 0 }

module _ {R S : Type 0} (handler : Handler R S) where
  -- What was handled so far: only records of the partition, each of those before the position at
  -- least once and in order, and under the condition `once` these once each and nothing else.
  pub record Delivers (once : Type 0) (s0 : S) (p : Consumer R × S) : Type 0 where
    pub handled : List R
    pub replayed : p.1 ≡ replay handler handled s0
    pub at_least_once : Subsequence (take p.0.position p.0.log) handled
    pub from_log : All (IsRecord p.0.log) handled
    pub in_log : p.0.position ≤ length p.0.log
    pub not_ahead : p.0.committed ≤ p.0.position
    pub exactly : once → (p.0.committed ≡ p.0.position) × (handled ≡ take p.0.position p.0.log)

  module _ (total : (r : R) (s : S) → (handler r s).0 ≡ true) (once : Type 0) (s0 : S) where
    returns : (r : R) (s : S) → handler r s ≡ (true, (handler r s).1)
    returns r s = ground (arith, total r s)

    commit_if-Delivers :
        (commits : Bool) (c : Consumer R) (s : S) (r : R) (n : ℕ)
        → c.position ≡ suc n
        → get_elem? c.log n ≡ some r
        → (once → commits ≡ true)
        → Delivers once s0 (record c { position = n }, s)
        → Delivers once s0 (commit_if commits c, (handler r s).1)
    commit_if-Delivers true c s r n at e ok h = record {
      handled = h.handled ++ r ∷ [];
      replayed = ap (λ t. (handler r t).1) h.replayed ∙ sym (replay-append handler h.handled r s0);
      at_least_once =
          rw (at, take_snoc c.log n e)
            (Subsequence-snoc (take n c.log) h.handled r h.at_least_once);
      from_log = All-snoc (IsRecord c.log) h.handled r h.from_log (n, e);
      in_log = omega (arith, at, get_elem?-lt-length c.log n e);
      not_ahead = omega arith;
      exactly = λ o. (refl, rw (at, take_snoc c.log n e) (ap (λ l. l ++ r ∷ []) (h.exactly o).1));
    }
    commit_if-Delivers false c s r n at e ok h = record {
      handled = h.handled ++ r ∷ [];
      replayed = ap (λ t. (handler r t).1) h.replayed ∙ sym (replay-append handler h.handled r s0);
      at_least_once =
          rw (at, take_snoc c.log n e)
            (Subsequence-snoc (take n c.log) h.handled r h.at_least_once);
      from_log = All-snoc (IsRecord c.log) h.handled r h.from_log (n, e);
      in_log = omega (arith, at, get_elem?-lt-length c.log n e);
      not_ahead = omega (arith, at, h.not_ahead);
      exactly = λ o. absurd (let f : false ≡ true = ok o in cc);
    }

    poll-Delivers :
        (commits : Bool) (c : Consumer R) (s : S)
        → (once → commits ≡ true)
        → Delivers once s0 (c, s)
        → Delivers once s0 (poll handler commits (c, s))
    poll-Delivers commits c s ok h = elim (Option-cases (get_elem? c.log c.position)) [
      | inl e ↦ rw (poll_end handler commits c s e) h
      | inr (r, e) ↦ rw (poll_returns handler commits r c s (handler r s).1 e (returns r s)) (
          commit_if-Delivers commits (record c { position = c.position + 1 }) s r c.position
            (omega arith) e ok h)
    ]

    step-Delivers :
        (e : Event R) (c : Consumer R) (s : S)
        → (once → Commits e)
        → Delivers once s0 (c, s)
        → Delivers once s0 (step handler e (c, s))
    unfolding step restart append_record
    step-Delivers (Event.polled commits) c s ok h = poll-Delivers commits c s ok h
    step-Delivers (Event.published r) c s ok h =
        let same = take-append c.log (r ∷ []) c.position h.in_log in
        record {
          handled = h.handled;
          replayed = h.replayed;
          at_least_once = rw same h.at_least_once;
          from_log = All_records-append c.log (r ∷ []) h.handled h.from_log;
          in_log = omega (arith, length-append c.log (r ∷ []), h.in_log);
          not_ahead = h.not_ahead;
          exactly = λ o. ((h.exactly o).0, (h.exactly o).1 ∙ sym same);
        }
    step-Delivers Event.restarted c s ok h = record {
      handled = h.handled;
      replayed = h.replayed;
      at_least_once =
          Subsequence-take c.log h.handled c.committed c.position h.not_ahead h.at_least_once;
      from_log = h.from_log;
      in_log = omega (arith, h.not_ahead, h.in_log);
      not_ahead = omega arith;
      exactly = λ o. (refl, (h.exactly o).1 ∙ ap (λ (n : ℕ). take n c.log) (sym (h.exactly o).0));
    }

    pub steps-Delivers :
        (es : List (Event R)) (p : Consumer R × S)
        → (once → All Commits es)
        → Delivers once s0 p
        → Delivers once s0 (run handler es p)
    unfolding run
    steps-Delivers [] p ok h = h
    steps-Delivers (e ∷ es) p ok h =
        steps-Delivers es (step handler e p) (λ o. (ok o).1)
          (step-Delivers e p.0 p.1 (λ o. (ok o).0) h)

  -- While no handler raises, whatever is published, polled and restarted in whatever order and
  -- whichever commits fail (or are not reached before the process ends), the state of a new
  -- group's consumer is that of a reader who handles a sequence of records of the partition, in
  -- which those before the position occur in order, each at least once; the committed offset
  -- never passes the position. If every commit succeeds, the sequence is exactly the records
  -- before the position, once each, all committed, and a restart repeats and skips none.
  pub run-Delivers :
      (total : (r : R) (s : S) → (handler r s).0 ≡ true) (es : List (Event R)) (log : List R)
      (s0 : S)
      → Delivers (All Commits es) s0 (run handler es (at_start log, s0))
  run-Delivers total es log s0 =
      steps-Delivers total (All Commits es) s0 es (at_start log, s0) (λ o. o)
        (record {
          handled = [];
          replayed = refl;
          at_least_once = tt;
          from_log = tt;
          in_log = omega arith;
          not_ahead = omega arith;
          exactly = λ o. (refl, refl);
        })
