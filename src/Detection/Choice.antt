-- ===== src/Detection/Choice.antt =====
-- Which incident `correlate` (src/aegis_services/detection/correlation.py) chooses, and how
-- severities combine.
use mathlib.Core.List.{Memᴰ}
use mathlib.Core.Path.{subst}
use aegis_project.Prelude.{
  ℕ, ◌≤◌, ◌≡◌, ◌⊎◌, inl, inr, refl, Bool, true, false, none, some, List, [], ◌∷◌, arith, find, All,
  insert_by, sort_by, Bool-cases, Option-cases,
}
use aegis_project.Schemas.{Severity, Signal}
use aegis_project.Detection.Topology.{Adjacency}
use aegis_project.Detection.Correlation.{
  sev_rank, more_severe, OpenIncidentView, CorrelationDecision, eligible, newer_first, correlate,
}

rank_injective : (a b : Severity) → sev_rank a ≡ sev_rank b → a ≡ b
rank_injective a b h = ground arith

-- Combining severities does not depend on the order or the grouping in which signals arrive, and
-- the result is the worse of the two by rank.
pub more_severe_lattice :
    (a b c : Severity)
    → (more_severe a b ≡ more_severe b a)
      × (more_severe (more_severe a b) c ≡ more_severe a (more_severe b c))
      × (sev_rank (more_severe a b) ≤ sev_rank a)
      × (sev_rank (more_severe a b) ≤ sev_rank b)
      × ((more_severe a b ≡ a) ⊎ (more_severe a b ≡ b))
unfolding more_severe
more_severe_lattice a b c =
    (ground (arith, rank_injective a b), ground arith, ground arith, ground arith, ground arith)

module _ (P : OpenIncidentView → Type 0) where
  All-insert :
      (v : OpenIncidentView) (vs : List OpenIncidentView)
      → P v
      → All P vs
      → All P (insert_by newer_first v vs)
  All-insert v [] p h = (p, tt)
  All-insert v (w ∷ vs) p h = elim (Bool-cases (newer_first v w)) [
    | inl e ↦ rw e (p, h)
    | inr e ↦ rw e (h.0, All-insert v vs p h.1)
  ]

  All-insert_inv :
      (v : OpenIncidentView) (vs : List OpenIncidentView)
      → All P (insert_by newer_first v vs)
      → P v × All P vs
  All-insert_inv v [] h = h
  All-insert_inv v (w ∷ vs) h = elim (Bool-cases (newer_first v w)) [
    | inl e ↦ rw e at h
    | inr e ↦
        let h' : P w × All P (insert_by newer_first v vs) = rw e at h in
        let (pv, rest) = All-insert_inv v vs h'.1 in (pv, (h'.0, rest))
  ]

  All-sort_inv : (vs : List OpenIncidentView) → All P (sort_by newer_first vs) → All P vs
  All-sort_inv [] h = tt
  All-sort_inv (v ∷ vs) h =
      let (pv, rest) = All-insert_inv v (sort_by newer_first vs) h in (pv, All-sort_inv vs rest)

Mem-cases :
    {x w : OpenIncidentView} {vs : List OpenIncidentView} → Memᴰ x (w ∷ vs) → (x ≡ w) ⊎ Memᴰ x vs
Mem-cases (Memᴰ.head e) = inl e
Mem-cases (Memᴰ.tail m) = inr m

Mem-insert :
    (x v : OpenIncidentView) (vs : List OpenIncidentView)
    → Memᴰ x (insert_by newer_first v vs)
    → (x ≡ v) ⊎ Memᴰ x vs
Mem-insert x v [] m = Mem-cases m
Mem-insert x v (w ∷ vs) m = elim (Bool-cases (newer_first v w)) [
  | inl e ↦ Mem-cases (rw e at m)
  | inr e ↦
      let m' : Memᴰ x (w ∷ insert_by newer_first v vs) = rw e at m in
      elim (Mem-cases m') [
        | inl same ↦ inr (Memᴰ.head same)
        | inr inside ↦ elim (Mem-insert x v vs inside) [
          | inl same ↦ inl same
          | inr old ↦ inr (Memᴰ.tail old)
        ]
      ]
]

Mem-sort :
    (x : OpenIncidentView) (vs : List OpenIncidentView)
    → Memᴰ x (sort_by newer_first vs)
    → Memᴰ x vs
Mem-sort x [] m = m
Mem-sort x (v ∷ vs) m = elim (Mem-insert x v (sort_by newer_first vs) m) [
  | inl same ↦ Memᴰ.head same
  | inr inside ↦ Memᴰ.tail (Mem-sort x vs inside)
]

-- The newest first, each no older than all that follow.
abbrev IsSorted : List OpenIncidentView → Type 0
IsSorted [] = Unit
IsSorted (v ∷ vs) = All (λ w. w.last_updated ≤ v.last_updated) vs × IsSorted vs

All-le_trans :
    (m n : ℕ) (vs : List OpenIncidentView)
    → m ≤ n
    → All (λ w. w.last_updated ≤ m) vs
    → All (λ w. w.last_updated ≤ n) vs
All-le_trans m n [] h a = tt
All-le_trans m n (v ∷ vs) h a = (omega arith, All-le_trans m n vs h a.1)

IsSorted-insert :
    (v : OpenIncidentView) (vs : List OpenIncidentView)
    → IsSorted vs
    → IsSorted (insert_by newer_first v vs)
IsSorted-insert v [] h = (tt, tt)
IsSorted-insert v (w ∷ vs) h = elim (Bool-cases (newer_first v w)) [
  | inl e ↦
      let le : w.last_updated ≤ v.last_updated = ground arith in
      rw e ((le, All-le_trans w.last_updated v.last_updated vs le h.0), h)
  | inr e ↦ rw e (
    All-insert (λ x. x.last_updated ≤ w.last_updated) v vs (ground arith) h.0,
    IsSorted-insert v vs h.1,
  )
]

IsSorted-sort : (vs : List OpenIncidentView) → IsSorted (sort_by newer_first vs)
IsSorted-sort [] = tt
IsSorted-sort (v ∷ vs) = IsSorted-insert v (sort_by newer_first vs) (IsSorted-sort vs)

module _ (test : OpenIncidentView → Bool) where
  -- Every view that passes the test is at most as recent as `n`.
  abbrev Newest : ℕ → List OpenIncidentView → Type 0
  Newest n = All (λ w. test w ≡ true → w.last_updated ≤ n)

  Newest-of_le :
      (n : ℕ) (vs : List OpenIncidentView) → All (λ w. w.last_updated ≤ n) vs → Newest n vs
  Newest-of_le n [] h = tt
  Newest-of_le n (v ∷ vs) h = (λ _. h.0, Newest-of_le n vs h.1)

  find-Newest :
      (vs : List OpenIncidentView) (v : OpenIncidentView)
      → IsSorted vs
      → find test vs ≡ some v
      → Memᴰ v vs × (test v ≡ true) × Newest v.last_updated vs
  find-Newest [] v s h = absurd (cc h)
  find-Newest (w ∷ vs) v s h = elim (Bool-cases (test w)) [
    | inl e ↦
        let same : w ≡ v = cc (rw e at h) in
        subst (λ u. Memᴰ u (w ∷ vs) × (test u ≡ true) × Newest u.last_updated (w ∷ vs)) same
          (Memᴰ.head refl, e, (λ _. omega arith, Newest-of_le w.last_updated vs s.0))
    | inr e ↦
        let (m, t, newest) = find-Newest vs v s.1 (rw e at h) in
        (Memᴰ.tail m, t, (λ t'. absurd (cc (e, t')), newest))
  ]

  find-none : (vs : List OpenIncidentView) → find test vs ≡ none → All (λ w. test w ≡ false) vs
  find-none [] h = tt
  find-none (w ∷ vs) h = elim (Bool-cases (test w)) [
    | inl e ↦ absurd (ground arith)
    | inr e ↦ (e, find-none vs (rw e at h))
  ]

-- `correlate` attaches a signal to an open incident that is within the window and related by the
-- topology, of which no eligible one is more recent, with the worse of the two severities; it
-- opens a new incident, at the signal's severity, only if no open incident is eligible.
pub correlate_choice :
    (signal : Signal) (views : List OpenIncidentView) (topology : Adjacency)
    (now window_seconds : ℕ)
    → let test = eligible signal topology now window_seconds in
      ((v : OpenIncidentView) × Memᴰ v views
        × (test v ≡ true)
        × All (λ w. test w ≡ true → w.last_updated ≤ v.last_updated) views
        × (correlate signal views topology now window_seconds
            ≡ CorrelationDecision.attach v.incident_id (more_severe v.severity signal.severity)))
      ⊎ (All (λ w. test w ≡ false) views
          × (correlate signal views topology now window_seconds
              ≡ CorrelationDecision.open_new signal.severity))
correlate_choice signal views topology now window_seconds =
    let test = eligible signal topology now window_seconds in
    let sorted = sort_by newer_first views in
    elim (Option-cases (find test sorted)) [
      | inl e ↦ inr (
        All-sort_inv (λ w. test w ≡ false) views (find-none test sorted e),
        unfold correlate more_severe in rw e,
      )
      | inr (v, e) ↦
          let (m, t, newest) = find-Newest test sorted v (IsSorted-sort views) e in
          inl (
            v,
            Mem-sort v views m,
            t,
            All-sort_inv (λ w. test w ≡ true → w.last_updated ≤ v.last_updated) views newest,
            unfold correlate more_severe in rw e,
          )
    ]
