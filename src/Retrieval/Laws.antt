-- ===== src/Retrieval/Laws.antt =====
-- When retrieved evidence counts as a precedent
-- (src/aegis_services/rag_service/retrieval.py).
use aegis_project.Prelude.{
  ℕ, String, ◌||◌, ◌≡◌, refl, ap, ◌∙◌, Option, some, List, [], ◌∷◌, arith, any, insert_by, sort_by,
}
use aegis_project.Prelude.Int.{ℤ}
use aegis_project.Retrieval.{
  Collection, RetrievedChunk, Knowledge, passes, first_hit, best_passes, higher_first, bundle_of,
  precedent_gate, retrieve, first_vector,
}

first_hit-insert_by :
    (t : ℤ) (c : RetrievedChunk) (cs : List RetrievedChunk)
    → best_passes t (first_hit (insert_by higher_first c cs))
      ≡ (passes t c || best_passes t (first_hit cs))
first_hit-insert_by t c [] = ground arith
first_hit-insert_by t c (d ∷ cs) = ground arith

first_hit-sort_by :
    (t : ℤ) (cs : List RetrievedChunk)
    → best_passes t (first_hit (sort_by higher_first cs)) ≡ any (passes t) cs
first_hit-sort_by t [] = refl
first_hit-sort_by t (c ∷ cs) =
    first_hit-insert_by t c (sort_by higher_first cs)
    ∙ ap (λ b. passes t c || b) (first_hit-sort_by t cs)

-- When the embedding gives the query a vector, retrieval returns a bundle, and the gate finds a
-- precedent in it exactly if any of the episodic hits that the store returned, in whatever order,
-- has a score of at least the threshold.
pub retrieve-precedent_gate :
    (k : Knowledge) (query : String) (service : Option String) (k_runbooks k_episodic : ℕ) (t : ℤ)
    (vector : k.Vector)
    → first_vector k (k.embed (query ∷ [])) ≡ some vector
    → let bundle = bundle_of k query vector service k_runbooks k_episodic in
      (retrieve k query service k_runbooks k_episodic ≡ some bundle)
      × (precedent_gate bundle t
          ≡ any (passes t) (k.search Collection.episodic vector k_episodic service))
unfolding retrieve precedent_gate bundle_of
retrieve-precedent_gate k query service k_runbooks k_episodic t vector e =
    (rw (e, retrieve), first_hit-sort_by t (k.search Collection.episodic vector k_episodic service))
