-- ===== src/Retrieval.antt =====
-- src/aegis_services/rag_service/retrieval.py, with the hits of
-- src/aegis_common/vectorstore.py. The vector store and the embedding model are arguments, and
-- scores are counted in millionths.
pub mod Laws
use Prim.Native.String.{String}
use aegis_project.Prelude.{
  ℕ, zero, suc, Bool, false, not, Option, none, some, List, [], ◌∷◌, ◌++◌, map, sort_by,
  if◌then◌else◌,
}
use aegis_project.Prelude.Int.{ℤ, pos, ltb_ℤ}
use aegis_project.Json.{Json, Fields, get, get_or, truthy}
use aegis_project.Schemas.{◌⧺◌}

pub data Collection : Type 0 where
  runbooks episodic arch_docs : Collection

pub record RetrievedChunk : Type 0 where
  pub chunk_id : String
  pub score : ℤ
  pub text : String
  pub payload : Fields

-- `a or b` of what `get` gives
abbrev or_else : Option Json → String → (Json → String) → String
or_else none default show = default
or_else (some v) default show = if truthy v then show v else default

-- `s[:n]`
unfoldable prefix : ℕ → String → String
prefix zero s = ""
prefix (suc n) String.[] = ""
prefix (suc n) (String.◌∷◌ c s) = String.◌∷◌ c (prefix n s)

-- `RetrievedChunk.collection`; `show` is Python's text for a value.
unfoldable pub collection_of : (Json → String) → RetrievedChunk → String
unfolding get_or
collection_of show c = show (get_or "_collection" (Json.text "?") c.payload)

-- `RetrievedChunk.citation`
unfoldable pub citation : (Json → String) → RetrievedChunk → String
unfolding collection_of get prefix
citation show c =
    let src =
      or_else (get "source" c.payload) (or_else (get "title" c.payload) (collection_of show c) show)
        show in
    "[" ⧺ src ⧺ "#" ⧺ prefix 8 c.chunk_id ⧺ "]"

-- `PRECEDENT_THRESHOLD`
abbrev pub precedent_threshold : ℤ
precedent_threshold = pos 750000

pub record EvidenceBundle : Type 0 where
  pub query : String
  pub runbook_hits : List RetrievedChunk
  pub episodic_hits : List RetrievedChunk

unfoldable pub citations : (Json → String) → EvidenceBundle → List String
unfolding citation
citations show bundle = map (citation show) (bundle.runbook_hits ++ bundle.episodic_hits)

abbrev pub first_hit : List RetrievedChunk → Option RetrievedChunk
first_hit [] = none
first_hit (c ∷ cs) = some c

unfoldable pub best_precedent : EvidenceBundle → Option RetrievedChunk
best_precedent bundle = first_hit bundle.episodic_hits

-- `c.score >= threshold`
abbrev pub passes : ℤ → RetrievedChunk → Bool
passes threshold c = not (ltb_ℤ c.score threshold)

abbrev pub best_passes : ℤ → Option RetrievedChunk → Bool
best_passes threshold none = false
best_passes threshold (some best) = passes threshold best

unfoldable pub precedent_gate : EvidenceBundle → ℤ → Bool
unfolding best_precedent
precedent_gate bundle threshold = best_passes threshold (best_precedent bundle)

-- The store's `search` (collection, vector, limit, service) and the embedding of texts.
pub record Knowledge : Type 1 where
  pub Vector : Type 0
  pub search : Collection → Vector → ℕ → Option String → List RetrievedChunk
  pub embed : List String → List Vector

abbrev pub higher_first : RetrievedChunk → RetrievedChunk → Bool
higher_first a b = not (ltb_ℤ a.score b.score)

module _ (k : Knowledge) where
  -- The bundle for the query's vector.
  unfoldable pub bundle_of : String → k.Vector → Option String → ℕ → ℕ → EvidenceBundle
  bundle_of query vector service k_runbooks k_episodic = record {
    query = query;
    runbook_hits = k.search Collection.runbooks vector k_runbooks service;
    episodic_hits = sort_by higher_first (k.search Collection.episodic vector k_episodic service);
  }

  abbrev pub first_vector : List k.Vector → Option k.Vector
  first_vector [] = none
  first_vector (v ∷ vs) = some v

  -- `Retriever.retrieve`; `none` where `self._embed([query])[0]` raises.
  unfoldable pub retrieve : String → Option String → ℕ → ℕ → Option EvidenceBundle
  unfolding bundle_of
  retrieve query service k_runbooks k_episodic = elim (first_vector (k.embed (query ∷ []))) [
    | none ↦ none
    | some vector ↦ some (bundle_of query vector service k_runbooks k_episodic)
  ]
