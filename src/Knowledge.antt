-- ===== src/Knowledge.antt =====
-- src/aegis_services/knowledge_ingestor/service.py: runbooks and resolved incidents are embedded
-- and stored.
pub mod Laws
pub mod Runbooks
use Prim.Native.Char.{Char}
use Prim.Native.String.{String}
use aegis_project.Prelude.{
  ℕ, ◌+◌, Bool, Option, none, some, List, [], ◌∷◌, map, length, if◌then◌else◌,
}
use aegis_project.Json.{Json, Fields, Items, nil, cons, end, field, get, get_or, truthy}
use aegis_project.Texts.{chars, pack}
use aegis_project.Schemas.{◌⧺◌}
use aegis_project.Events.{IncidentEvent, IncidentEventType}
use aegis_project.Chunking.{Chunk, Lexer, chunk_markdown}
use aegis_project.Retrieval.{Collection}
use aegis_project.VectorStore.{Client, upsert}

pub record RunbookIn : Type 0 where
  pub source : String
  pub service : String
  pub system : String
  pub text : String
  pub tags : List String

-- What the service calls: the vector database, the embedding model, the pattern and the character
-- tests of the chunker, `uuid5` of a name under the URL namespace, and the texts of values,
-- numbers and UUIDs.
pub record Services : Type 1 where
  pub client : Client
  pub embed : List String → List client.Vector
  pub lexer : Lexer
  pub uuid5 : String → String
  pub show : Json → String
  pub decimal : ℕ → String
  pub uuid_text : ℕ → String

abbrev text_items : List String → Items
text_items [] = nil
text_items (s ∷ ss) = cons (Json.text s) (text_items ss)

unfoldable pub runbook_payload : String → String → String → List String → Chunk → Fields
runbook_payload source service system tags c = field "text" (Json.text (pack c.text)) (
    field "source" (Json.text source) (
      field "service" (Json.text service) (
        field "system" (Json.text system) (
          field "heading" (Json.text (pack c.heading))
            (field "tags" (Json.arr (text_items tags)) end)))))

module _ (services : Services) where
  unfoldable pub chunk_id : String → Chunk → String
  chunk_id source c = services.uuid5 (source ⧺ ":" ⧺ services.decimal c.ordinal)

  unfoldable pub store_chunks :
      String
      → String
      → String
      → List String
      → List Chunk
      → services.client.Stored
      → ℕ × services.client.Stored
  unfolding chunk_id runbook_payload upsert
  store_chunks source service system tags [] stored = (0, stored)
  store_chunks source service system tags (c ∷ cs) stored =
      let chunks = c ∷ cs in
      (
        length chunks,
        upsert services.client Collection.runbooks (map (chunk_id source) chunks)
            (services.embed (map (λ (x : Chunk). pack x.text) chunks))
            (map (runbook_payload source service system tags) chunks) stored,
      )

  -- `ingest_runbook`, with the defaults of `chunk_markdown`; `none` where its loop does not end.
  unfoldable pub ingest_runbook :
      String
      → String
      → String
      → String
      → List String
      → services.client.Stored
      → Option (ℕ × services.client.Stored)
  unfolding chunk_markdown store_chunks
  ingest_runbook source service system text tags stored =
      elim (chunk_markdown services.lexer 800 100 (chars text)) [
        | none ↦ none
        | some chunks ↦ some (store_chunks source service system tags chunks stored)
      ]

  -- `post_runbook`: the number of chunks is the response.
  unfoldable pub post_runbook :
      RunbookIn → services.client.Stored → Option (ℕ × services.client.Stored)
  unfolding ingest_runbook
  post_runbook rb stored = ingest_runbook rb.source rb.service rb.system rb.text rb.tags stored

  -- `", ".join(v)`: it goes through a list of texts, the characters of a text or the keys of a
  -- dictionary, and `none` is where it raises.
  abbrev pub as_text : Json → Option String
  as_text (Json.text s) = some s
  as_text (Json.uuid n) = some (services.uuid_text n)
  as_text _ = none

  abbrev pub letters : List Char → List String
  letters [] = []
  letters (c ∷ cs) = String.◌∷◌ c "" ∷ letters cs

  abbrev pub keys : Fields → List String
  keys end = []
  keys (field k v d) = k ∷ keys d

  abbrev pub item_texts : Items → Option (List String)
  item_texts nil = some []
  item_texts (cons v vs) = elim (as_text v) [
    | none ↦ none
    | some s ↦ elim (item_texts vs) [ none ↦ none | some ss ↦ some (s ∷ ss) ]
  ]

  abbrev pub iterated_texts : Json → Option (List String)
  iterated_texts (Json.arr vs) = item_texts vs
  iterated_texts (Json.text s) = some (letters (chars s))
  iterated_texts (Json.uuid n) = some (letters (chars (services.uuid_text n)))
  iterated_texts (Json.obj d) = some (keys d)
  iterated_texts _ = none

  abbrev pub join : List String → String
  join [] = ""
  join (s ∷ []) = s
  join (s ∷ t ∷ ss) = s ⧺ ", " ⧺ join (t ∷ ss)

  abbrev pub first_letter : String → Option Json
  first_letter String.[] = none
  first_letter (String.◌∷◌ c s) = some (Json.text (String.◌∷◌ c ""))

  -- `v[0]`, where the join did not raise.
  abbrev pub first_of : Json → Option Json
  first_of (Json.arr (cons v vs)) = some v
  first_of (Json.text s) = first_letter s
  first_of (Json.uuid n) = first_letter (services.uuid_text n)
  first_of _ = none

  -- `(data.get("services") or ["unknown"])[0]`
  unfoldable pub first_service : Option Json → Option Json
  first_service none = some (Json.text "unknown")
  first_service (some v) = if truthy v then first_of v else some (Json.text "unknown")

  unfoldable pub episode_text : Fields → String → String
  unfolding get_or
  episode_text d names =
      "Incident: "
      ⧺ services.show (get_or "title" (Json.text "") d)
      ⧺ "\nServices: "
      ⧺ names
      ⧺ "\nRoot cause: "
      ⧺ services.show (get_or "root_cause" (Json.text "n/a") d)
      ⧺ "\nResolution: "
      ⧺ services.show (get_or "resolution" (Json.text "n/a") d)

  unfoldable pub episode_payload : {D : Type 0} → IncidentEvent D → String → String → Json → Fields
  unfolding get_or
  episode_payload e occurred_at text service = field "text" (Json.text text) (
      field "source" (Json.text ("incident:" ⧺ services.uuid_text e.incident_id)) (
        field "service" service (
          field "services" (get_or "services" (Json.arr nil) e.payload) (
            field "severity" (get_or "severity" (Json.text "unknown") e.payload) (
              field "root_cause_class" (get_or "root_cause_class" (Json.text "unknown") e.payload)
                (field "resolved_at" (Json.text occurred_at) end))))))

  -- `embed([text])[0]` and what follows; `none` where it raises.
  abbrev pub store_episode :
      {D : Type 0}
      → IncidentEvent D
      → String
      → String
      → Option Json
      → List services.client.Vector
      → services.client.Stored
      → Option services.client.Stored
  unfolding episode_payload upsert
  store_episode e occurred_at text (some service) (v ∷ vs) stored = some (
      upsert services.client Collection.episodic (services.uuid_text e.incident_id ∷ []) (v ∷ [])
        (episode_payload e occurred_at text service ∷ []) stored)
  store_episode e occurred_at text _ _ stored = none

  -- `ingest_resolved_incident`; `none` where it raises.
  unfoldable pub ingest_resolved_incident :
      {D : Type 0}
      → IncidentEvent D
      → String
      → services.client.Stored
      → Option services.client.Stored
  unfolding get get_or first_service episode_text store_episode
  ingest_resolved_incident e occurred_at stored =
      elim (iterated_texts (get_or "services" (Json.arr nil) e.payload)) [
        | none ↦ none
        | some names ↦
            let text = episode_text e.payload (join names) in
            store_episode e occurred_at text (first_service (get "services" e.payload))
              (services.embed (text ∷ [])) stored
      ]

  -- `_consume_resolved`
  unfoldable pub consume_resolved :
      {D : Type 0}
      → IncidentEvent D
      → String
      → services.client.Stored
      → Option services.client.Stored
  unfolding ingest_resolved_incident
  consume_resolved e occurred_at stored =
      let ingested = ingest_resolved_incident e occurred_at stored in
      elim e.event_type [ IncidentEventType.resolved ↦ ingested | _ ↦ some stored ]
