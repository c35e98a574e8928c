-- ===== src/Audit/Laws.antt =====
-- What `verify_chain` (src/aegis_common/audit.py) accepts, what it detects, and what it does not.
use mathlib.Core.Path.{subst}
use aegis_project.Prelude.{
  ℕ, ◌+◌, ◌≡◌, ◌↔◌, refl, sym, ap, ◌∙◌, true, false, Option, none, some, List, [], ◌∷◌, ◌++◌, arith,
  length, map,
}
use aegis_project.Audit.{
  Hasher, AuditRow, Entry, differs, compute_hash, last_row, next_row, append_audit, verify_from,
  verify_chain,
}

differs-eq_false {ℓ} : {A : Type ℓ} (eq : Discrete A) (a b : A) → (differs eq a b ≡ false) ↔ (a ≡ b)
differs-eq_false eq a b =
    elim (eq a b) as (λ d. ((elim d [ yes p ↦ false | no p ↦ true ]) ≡ false) ↔ (a ≡ b)) [
      | yes p ↦ (λ _. p, λ _. refl)
      | no p ↦ (λ q. absurd (cc q), λ q. absurd (p q))
    ]

module _ (h : Hasher) where
  -- The chain as the document describes it: each row has the hash of its number, the hash before
  -- it and its payload.
  abbrev pub Chained : h.Hash → List (AuditRow h) → Type 0
  Chained prev [] = Unit
  Chained prev (r ∷ rs) =
      (r.hash ≡ compute_hash h r.seq prev r.payload) × (r.prev_hash ≡ prev) × Chained r.hash rs

  pub verify_from-Chained :
      (rows : List (AuditRow h)) (prev : h.Hash)
      → (verify_from h prev rows ≡ true) ↔ Chained prev rows
  unfolding verify_from
  verify_from-Chained [] prev = (λ _. tt, λ _. refl)
  verify_from-Chained (r ∷ rs) prev = ground (
    arith,
    differs-eq_false h.Hash-discrete (compute_hash h r.seq prev r.payload) r.hash,
    differs-eq_false h.Hash-discrete r.prev_hash prev,
    verify_from-Chained rs r.hash,
  )

  -- The verification accepts exactly the tables in which every row has the hash of its number,
  -- the hash before it and its payload, and names the hash before it; the first one names the
  -- genesis hash.
  pub verify_chain_exact :
      (rows : List (AuditRow h)) → (verify_chain h rows ≡ true) ↔ Chained h.genesis_hash rows
  unfolding verify_chain
  verify_chain_exact rows = verify_from-Chained rows h.genesis_hash

  -- The hash that a chain ends with.
  unfoldable pub end_hash : h.Hash → List (AuditRow h) → h.Hash
  end_hash prev [] = prev
  end_hash prev (r ∷ rs) = end_hash r.hash rs

  -- The rows are numbered one after the other.
  abbrev pub Numbered : ℕ → List (AuditRow h) → Type 0
  Numbered n [] = Unit
  Numbered n (r ∷ rs) = (r.seq ≡ n + 1) × Numbered (n + 1) rs

  -- A well-formed table.
  pub record IsValid (rows : List (AuditRow h)) : Type 0 where
    pub chained : Chained h.genesis_hash rows
    pub numbered : Numbered 0 rows

  -- The row before the next one, as its number and its hash, with those of the start.
  abbrev tip : h.Hash → ℕ → Option (AuditRow h) → h.Hash × ℕ
  tip prev n none = (prev, n)
  tip prev n (some l) = (l.hash, l.seq)

  tip-cons :
      (r : AuditRow h) (rs : List (AuditRow h)) (prev : h.Hash) (n : ℕ)
      → tip prev n (last_row h (r ∷ rs)) ≡ tip r.hash r.seq (last_row h rs)
  unfolding last_row
  tip-cons r rs prev n =
      elim (last_row h rs)
        as (λ o. tip prev n (elim o [ none ↦ some r | some l ↦ some l ]) ≡ tip r.hash r.seq o) [
          | none ↦ refl
          | some l ↦ refl
        ]

  module _ (e : Entry) where
    next_after : h.Hash → ℕ → AuditRow h
    next_after prev n = record {
      seq = n + 1;
      incident_id = e.incident_id;
      actor = e.actor;
      action = e.action;
      payload = e.payload;
      trace_id = e.trace_id;
      prev_hash = prev;
      hash = compute_hash h (n + 1) prev e.payload;
    }

    abbrev snoc : h.Hash × ℕ → List (AuditRow h) → List (AuditRow h)
    snoc (p, k) rows = rows ++ next_after p k ∷ []

    snoc_valid :
        (rows : List (AuditRow h)) (prev : h.Hash) (n : ℕ)
        → Chained prev rows
        → Numbered n rows
        → Chained prev (snoc (tip prev n (last_row h rows)) rows)
          × Numbered n (snoc (tip prev n (last_row h rows)) rows)
    snoc_valid [] prev n c m = unfold last_row next_after in ((refl, refl, tt), (refl, tt))
    snoc_valid (r ∷ rs) prev n c m =
        let (chained, numbered) =
          snoc_valid rs r.hash r.seq c.2 (subst (λ k. Numbered k rs) (sym m.0) m.1) in
        let after = tip r.hash r.seq (last_row h rs) in
        rw tip-cons
          ((c.0, c.1, chained), (m.0, subst (λ k. Numbered k (snoc after rs)) m.0 numbered))

    next_row-next_after :
        (last : Option (AuditRow h))
        → next_row h last e ≡ next_after (tip h.genesis_hash 0 last).0 (tip h.genesis_hash 0 last).1
    unfolding next_row next_after
    next_row-next_after none = refl
    next_row-next_after (some l) = refl

    append_audit-snoc :
        (rows : List (AuditRow h))
        → append_audit h e rows ≡ snoc (tip h.genesis_hash 0 (last_row h rows)) rows
    append_audit-snoc rows =
        unfold append_audit in ap (λ r. rows ++ r ∷ []) (next_row-next_after (last_row h rows))

    pub append_audit-IsValid :
        (rows : List (AuditRow h)) → IsValid rows → IsValid (append_audit h e rows)
    append_audit-IsValid rows v =
        let (chained, numbered) = snoc_valid rows h.genesis_hash 0 v.chained v.numbered in
        rw append_audit-snoc (record { chained = chained; numbered = numbered })

  unfoldable pub append_all : List Entry → List (AuditRow h) → List (AuditRow h)
  append_all [] rows = rows
  append_all (e ∷ es) rows = append_all es (append_audit h e rows)

  append_all-IsValid :
      (es : List Entry) (rows : List (AuditRow h)) → IsValid rows → IsValid (append_all es rows)
  unfolding append_all
  append_all-IsValid [] rows v = v
  append_all-IsValid (e ∷ es) rows v =
      append_all-IsValid es (append_audit h e rows) (append_audit-IsValid e rows v)

  -- Whatever entries are appended to an empty log, one after the other, the verification accepts
  -- the log and its rows are numbered from 1 without a gap.
  pub log_verifies :
      (es : List Entry) → (verify_chain h (append_all es []) ≡ true) × Numbered 0 (append_all es [])
  log_verifies es =
      let v = append_all-IsValid es [] (record { chained = tt; numbered = tt }) in
      ((verify_chain_exact _).1 v.chained, v.numbered)

  -- Row by row the same number, the same hash before it, the same serialised payload and the same
  -- hash.
  abbrev pub SameContent : List (AuditRow h) → List (AuditRow h) → Type 0
  SameContent [] [] = Unit
  SameContent (x ∷ xs) (y ∷ ys) =
      (x.seq ≡ y.seq)
      × (x.prev_hash ≡ y.prev_hash)
      × (h.canonical x.payload ≡ h.canonical y.payload)
      × (x.hash ≡ y.hash)
      × SameContent xs ys
  SameContent _ _ = ⊥

-- No two inputs of the hash collide.
pub record IsCollisionFree (h : Hasher) : Type 0 where
  pub sha256-injective :
      (m n : ℕ) (p q : h.Hash) (a b : h.Bytes)
      → h.sha256 m p a ≡ h.sha256 n q b
      → (m ≡ n) × (p ≡ q) × (a ≡ b)

module _ (h : Hasher) (free : IsCollisionFree h) where
  same_end :
      (xs ys : List (AuditRow h)) (p q : h.Hash)
      → Chained h p xs
      → Chained h q ys
      → length xs ≡ length ys
      → end_hash h p xs ≡ end_hash h q ys
      → (p ≡ q) × SameContent h xs ys
  unfolding end_hash compute_hash
  same_end [] [] p q cx cy len e = (e, tt)
  same_end [] (y ∷ ys) p q cx cy len e = absurd (omega arith)
  same_end (x ∷ xs) [] p q cx cy len e = absurd (omega arith)
  same_end (x ∷ xs) (y ∷ ys) p q cx cy len e =
      let (hashes, rest) = same_end xs ys x.hash y.hash cx.2 cy.2 (omega arith) e in
      let (seqs, prevs, payloads) =
        free.sha256-injective x.seq y.seq p q (h.canonical x.payload) (h.canonical y.payload)
          (sym cx.0 ∙ hashes ∙ cy.0) in
      (prevs, (seqs, cx.1 ∙ prevs ∙ sym cy.1, payloads, hashes, rest))

  -- Without a collision of the hash, two accepted logs of equal length that end with the same
  -- hash have the same numbers, hashes and serialised payloads in every row: no edit of these
  -- columns that keeps the length and the last hash is accepted.
  pub tamper_evident :
      (xs ys : List (AuditRow h))
      → verify_chain h xs ≡ true
      → verify_chain h ys ≡ true
      → length xs ≡ length ys
      → end_hash h h.genesis_hash xs ≡ end_hash h h.genesis_hash ys
      → SameContent h xs ys
  tamper_evident xs ys vx vy len e =
      (same_end xs ys h.genesis_hash h.genesis_hash ((verify_chain_exact h xs).0 vx)
        ((verify_chain_exact h ys).0 vy) len e).1

module _ (h : Hasher) where
  -- The columns that the hash does not cover, changed at will.
  abbrev pub relabel : (AuditRow h → Entry) → AuditRow h → AuditRow h
  relabel f r = record r {
    actor = (f r).actor;
    action = (f r).action;
    incident_id = (f r).incident_id;
    trace_id = (f r).trace_id;
  }

  relabel-verify_from :
      (f : AuditRow h → Entry) (rows : List (AuditRow h)) (prev : h.Hash)
      → verify_from h prev (map (relabel f) rows) ≡ verify_from h prev rows
  unfolding verify_from
  relabel-verify_from f [] prev = refl
  relabel-verify_from f (r ∷ rs) prev = rw (relabel-verify_from f rs r.hash)

  -- The verification does not see the actor, the action, the incident or the trace of any row:
  -- any change of these columns in any rows leaves its verdict as it was.
  pub relabel_unseen :
      (f : AuditRow h → Entry) (rows : List (AuditRow h))
      → verify_chain h (map (relabel f) rows) ≡ verify_chain h rows
  unfolding verify_chain
  relabel_unseen f rows = relabel-verify_from f rows h.genesis_hash

  Chained-append :
      (xs ys : List (AuditRow h)) (p : h.Hash) → Chained h p (xs ++ ys) → Chained h p xs
  Chained-append [] ys p c = tt
  Chained-append (x ∷ xs) ys p c = (c.0, c.1, Chained-append xs ys x.hash c.2)

  -- An accepted log is still accepted after any number of its latest rows are removed.
  pub truncation_unseen :
      (xs ys : List (AuditRow h)) → verify_chain h (xs ++ ys) ≡ true → verify_chain h xs ≡ true
  truncation_unseen xs ys v =
      (verify_chain_exact h xs).1
        (Chained-append xs ys h.genesis_hash ((verify_chain_exact h (xs ++ ys)).0 v))
