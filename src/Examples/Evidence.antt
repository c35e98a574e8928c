-- ===== src/Examples/Evidence.antt =====
-- The theorem on retrieval at concrete values.
use aegis_project.Prelude.{ℕ, ◌≡◌, refl, none, some, [], ◌∷◌, any}
use aegis_project.Prelude.Int.{pos}
use aegis_project.Json.{end}
use aegis_project.Retrieval.{
  Collection, RetrievedChunk, Knowledge, passes, precedent_threshold, bundle_of, precedent_gate,
  retrieve,
}
use aegis_project.Retrieval.Laws.{retrieve-precedent_gate}

abbrev chunk : ℕ → RetrievedChunk
chunk score = record { chunk_id = "c"; score = pos score; text = "restart"; payload = end }

-- A store that always finds a weak and a strong hit.
abbrev knowledge : Knowledge
knowledge = record {
  Vector = ℕ;
  search = λ collection vector limit service. chunk 400000 ∷ chunk 800000 ∷ [];
  embed = λ texts. 1 ∷ [];
}

retrieve-precedent_gate_example :
    let bundle = bundle_of knowledge "latency" 1 none 5 3 in
    (retrieve knowledge "latency" none 5 3 ≡ some bundle)
    × (precedent_gate bundle precedent_threshold
        ≡ any (passes precedent_threshold) (knowledge.search Collection.episodic 1 3 none))
retrieve-precedent_gate_example =
    retrieve-precedent_gate knowledge "latency" none 5 3 precedent_threshold 1 refl
