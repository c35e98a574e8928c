-- ===== src/Rag.antt =====
-- src/aegis_services/rag_service/app.py: the retrieval endpoint.
pub mod Laws
use aegis_project.Prelude.{ℕ, String, Bool, Option, none, some, List, [], ◌∷◌, map}
use aegis_project.Prelude.Int.{ℤ, pos}
use aegis_project.Json.{Json, get_or}
use aegis_project.Http.{Response, ok, server_error}
use aegis_project.Retrieval.{
  RetrievedChunk, EvidenceBundle, Knowledge, citation, citations, best_precedent, precedent_gate,
  precedent_threshold, retrieve,
}
use aegis_project.VectorStore.{Client, search}

pub record RetrieveRequest : Type 0 where
  pub query : String
  pub service : Option String
  pub k_runbooks : ℕ
  pub k_episodic : ℕ

pub record Hit : Type 0 where
  pub hit_id : String
  pub score : ℤ
  pub text : String
  pub citation : String
  pub source : String

pub record RetrieveResponse : Type 0 where
  pub query : String
  pub runbooks : List Hit
  pub episodic : List Hit
  pub citations : List String
  pub has_precedent : Bool
  pub best_precedent_score : ℤ

-- The retriever of the service, over a vector store and an embedding model.
abbrev pub knowledge_of :
    (client : Client)
    → (Json → String)
    → (List String → List client.Vector)
    → client.Stored
    → Knowledge
knowledge_of client show embed stored = record {
  Vector = client.Vector;
  search = λ collection vector limit service.
      search client show collection vector limit service [] stored;
  embed = embed;
}

-- `best.score if best else 0.0`
abbrev pub score_of : Option RetrievedChunk → ℤ
score_of none = pos 0
score_of (some best) = best.score

module _ (show : Json → String) where
  unfoldable pub to_hit : RetrievedChunk → Hit
  unfolding citation get_or
  to_hit c = record {
    hit_id = c.chunk_id;
    score = c.score;
    text = c.text;
    citation = citation show c;
    source = show (get_or "source" (Json.text "") c.payload);
  }

  unfoldable pub response_of : RetrieveRequest → EvidenceBundle → RetrieveResponse
  unfolding to_hit citations best_precedent precedent_gate
  response_of req bundle = record {
    query = req.query;
    runbooks = map to_hit bundle.runbook_hits;
    episodic = map to_hit bundle.episodic_hits;
    citations = citations show bundle;
    has_precedent = precedent_gate bundle precedent_threshold;
    best_precedent_score = score_of (best_precedent bundle);
  }

  -- The handler `retrieve`.
  unfoldable pub handle_retrieve : Knowledge → RetrieveRequest → Response RetrieveResponse
  unfolding retrieve response_of
  handle_retrieve k req = elim (retrieve k req.query req.service req.k_runbooks req.k_episodic) [
    | none ↦ server_error
    | some bundle ↦ ok (response_of req bundle)
  ]
