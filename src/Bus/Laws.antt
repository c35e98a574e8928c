-- ===== src/Bus/Laws.antt =====
-- The rounds of the consume loop of src/aegis_common/kafka.py, and which records are lost when a
-- handler raises.
use aegis_project.Prelude.{
  ℕ, zero, suc, ◌+◌, ◌≤◌, ◌<◌, ◌≡◌, inl, inr, refl, ap, Bool, true, false, none, some, List, [],
  ◌∷◌, ◌++◌, arith, take, length, get_elem?, Option-cases, Bool-cases,
}
use aegis_project.Bus.{
  Consumer, Handler, commit_if, handle_next, poll, restart, append_record, Event, step, run,
}

module _ {R : Type 0} where
  pub get_elem?-lt-length : (xs : List R) (n : ℕ) {r : R} → get_elem? xs n ≡ some r → n < length xs
  get_elem?-lt-length [] n h = cc
  get_elem?-lt-length (x ∷ xs) zero h = omega arith
  get_elem?-lt-length (x ∷ xs) (suc n) h = omega (arith, get_elem?-lt-length xs n h)

  pub take_snoc :
      (xs : List R) (n : ℕ) {r : R}
      → get_elem? xs n ≡ some r
      → take (suc n) xs ≡ take n xs ++ r ∷ []
  take_snoc [] n h = cc
  take_snoc (x ∷ xs) zero h = cc
  take_snoc (x ∷ xs) (suc n) h = ap (λ (l : List R). x ∷ l) (take_snoc xs n h)

  pub take-append : (xs ys : List R) (n : ℕ) → n ≤ length xs → take n (xs ++ ys) ≡ take n xs
  take-append xs ys zero h = refl
  take-append [] ys (suc n) h = absurd (omega arith)
  take-append (x ∷ xs) ys (suc n) h = ap (λ (l : List R). x ∷ l) (take-append xs ys n (omega arith))

module _ {R S : Type 0} (handler : Handler R S) where
  -- The records handled one after the other: what a partition means to a reader.
  abbrev pub replay : List R → S → S
  replay [] s = s
  replay (r ∷ rs) s = replay rs (handler r s).1

  pub replay-append :
      (xs : List R) (r : R) (s : S) → replay (xs ++ r ∷ []) s ≡ (handler r (replay xs s)).1
  replay-append [] r s = refl
  replay-append (x ∷ xs) r s = replay-append xs r (handler x s).1

  pub poll_returns :
      (commits : Bool) (r : R) (c : Consumer R) (s s' : S)
      → get_elem? c.log c.position ≡ some r
      → handler r s ≡ (true, s')
      → poll handler commits (c, s)
        ≡ (commit_if commits (record c { position = c.position + 1 }), s')
  unfolding poll handle_next
  poll_returns commits r c s s' e h = rw e (ground (arith, h))

  poll_raises :
      (commits : Bool) (r : R) (c : Consumer R) (s s' : S)
      → get_elem? c.log c.position ≡ some r
      → handler r s ≡ (false, s')
      → poll handler commits (c, s) ≡ (record c { position = c.position + 1 }, s')
  unfolding poll handle_next
  poll_raises commits r c s s' e h = rw e (ground (arith, h))

  pub poll_end :
      (commits : Bool) (c : Consumer R) (s : S)
      → get_elem? c.log c.position ≡ none
      → poll handler commits (c, s) ≡ (c, s)
  unfolding poll handle_next
  poll_end commits c s e = rw e refl

  -- The position and the committed offset are behind a record.
  pub record Behind (n : ℕ) (c : Consumer R) : Type 0 where
    pub committed_past : n < c.committed
    pub position_past : n < c.position

  commit_if-Behind :
      (n : ℕ) (commits : Bool) (c : Consumer R) → Behind n c → Behind n (commit_if commits c)
  commit_if-Behind n true c h = record {
    committed_past = h.position_past;
    position_past = h.position_past;
  }
  commit_if-Behind n false c h = h

  poll-Behind :
      (n : ℕ) (commits : Bool) (c : Consumer R) (s : S)
      → Behind n c
      → Behind n (poll handler commits (c, s)).0
  poll-Behind n commits c s h = elim (Option-cases (get_elem? c.log c.position)) [
    | inl e ↦ rw (poll_end commits c s e) h
    | inr (r, e) ↦
        let next : Behind n (record c { position = c.position + 1 }) = record {
          committed_past = h.committed_past;
          position_past = omega (arith, h.position_past);
        } in
        elim (Bool-cases (handler r s).0) [
          | inl k ↦
              rw (poll_returns commits r c s (handler r s).1 e (ground (arith, k)))
                (commit_if-Behind n commits _ next)
          | inr k ↦ rw (poll_raises commits r c s (handler r s).1 e (ground (arith, k))) next
        ]
  ]

  step-Behind :
      (n : ℕ) (e : Event R) (c : Consumer R) (s : S)
      → Behind n c
      → Behind n (step handler e (c, s)).0
  unfolding step restart append_record
  step-Behind n (Event.published r) c s h = record {
    committed_past = h.committed_past;
    position_past = h.position_past;
  }
  step-Behind n Event.restarted c s h = record {
    committed_past = h.committed_past;
    position_past = h.committed_past;
  }
  step-Behind n (Event.polled commits) c s h = poll-Behind n commits c s h

  run-Behind :
      (n : ℕ) (es : List (Event R)) (p : Consumer R × S)
      → Behind n p.0
      → Behind n (run handler es p).0
  unfolding run
  run-Behind n [] p h = h
  run-Behind n (e ∷ es) p h = run-Behind n es (step handler e p) (step-Behind n e p.0 p.1 h)

  -- A record whose handler raised is delivered again if the consumer restarts before it commits:
  -- the position goes back to the committed offset, which is not behind the record. If instead
  -- the handler of the next record returns and the commit after it succeeds, the record is lost:
  -- whatever happens from then on, the consumer never reads it again, although it was never
  -- handled with success.
  pub failed_record_lost :
      (commits : Bool) (c : Consumer R) (s s1 s2 : S) (r next : R)
      → c.committed ≤ c.position
      → get_elem? c.log c.position ≡ some r
      → get_elem? c.log (c.position + 1) ≡ some next
      → handler r s ≡ (false, s1)
      → handler next s1 ≡ (true, s2)
      → ((restart (poll handler commits (c, s)).0).position ≤ c.position)
        × ((es : List (Event R))
            → c.position
              < (run handler es (poll handler true (poll handler commits (c, s)))).0.position)
  unfolding restart
  failed_record_lost commits c s s1 s2 r next le at_r at_next fails returns =
      let c1 : Consumer R = record c { position = c.position + 1 } in
      let failed = poll_raises commits r c s s1 at_r fails in
      let handled = poll_returns true next c1 s1 s2 at_next returns in
      rw (failed, handled) (le, λ es. (run-Behind c.position es _ (ground arith)).position_past)
