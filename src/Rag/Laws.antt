-- ===== src/Rag/Laws.antt =====
-- What src/aegis_services/rag_service/app.py answers.
use aegis_project.Prelude.{◌≡◌, refl, ap, String, not, Option, none, some, List, [], ◌∷◌, ◌++◌, map}
use aegis_project.Prelude.Int.{ltb_ℤ}
use aegis_project.Json.{Json}
use aegis_project.Retrieval.{
  RetrievedChunk, EvidenceBundle, citation, citations, best_precedent, precedent_gate,
  precedent_threshold, first_hit, best_passes,
}
use aegis_project.Rag.{RetrieveRequest, Hit, to_hit, score_of, response_of}

module _ (show : Json → String) where
  citations-append :
      (cs ds : List RetrievedChunk)
      → map (citation show) (cs ++ ds)
        ≡ map (λ (h : Hit). h.citation) (map (to_hit show) cs)
          ++ map (λ (h : Hit). h.citation) (map (to_hit show) ds)
  unfolding to_hit
  citations-append [] [] = refl
  citations-append [] (d ∷ ds) = ap (λ r. citation show d ∷ r) (citations-append [] ds)
  citations-append (c ∷ cs) ds = ap (λ r. citation show c ∷ r) (citations-append cs ds)

  score-gate :
      (best : Option RetrievedChunk)
      → best_passes precedent_threshold best ≡ not (ltb_ℤ (score_of best) precedent_threshold)
  score-gate none = refl
  score-gate (some best) = refl

  -- The endpoint's answer is consistent, whatever was retrieved: `has_precedent` says that the
  -- score it reports reaches the threshold, and `citations` are those of its runbook hits followed
  -- by those of its episodic hits.
  pub response_consistent :
      (req : RetrieveRequest) (bundle : EvidenceBundle)
      → let r = response_of show req bundle in
        (r.has_precedent ≡ not (ltb_ℤ r.best_precedent_score precedent_threshold))
        × (r.citations
            ≡ map (λ (h : Hit). h.citation) r.runbooks ++ map (λ (h : Hit). h.citation) r.episodic)
  unfolding response_of precedent_gate citations best_precedent
  response_consistent req bundle = (
    score-gate (first_hit bundle.episodic_hits),
    citations-append bundle.runbook_hits bundle.episodic_hits,
  )
