-- ===== src/VectorStore.antt =====
-- `VectorStore` of src/aegis_common/vectorstore.py. The client of the vector database is an
-- argument; scores are counted in millionths.
pub mod Collections
use aegis_project.Prelude.{ℕ, String, Option, none, some, List, [], ◌∷◌, map, str_eq, if◌then◌else◌}
use aegis_project.Prelude.Int.{ℤ}
use aegis_project.Json.{Json, Fields, get_or, put}
use aegis_project.Retrieval.{Collection, RetrievedChunk}

-- `Collection.value`
abbrev pub collection_value : Collection → String
collection_value Collection.runbooks = "runbooks"
collection_value Collection.episodic = "incidents_episodic"
collection_value Collection.arch_docs = "architecture_docs"

-- A condition of a filter: the key and the value that a payload holds under it.
abbrev pub Conditions : Type 0
Conditions = List (String × Json)

pub record Point (Vector : Type 0) : Type 0 where
  pub point_id : String
  pub vector : Vector
  pub payload : Fields

pub record ScoredPoint : Type 0 where
  pub point_id : String
  pub score : ℤ
  pub payload : Fields

-- The client: what it stores, and its calls. No filter is `none`.
pub record Client : Type 1 where
  pub Vector : Type 0
  pub Stored : Type 0
  pub upsert : String → List (Point Vector) → Stored → Stored
  pub search : String → Vector → Option Conditions → ℕ → Stored → List ScoredPoint

-- `zip`, cut off where a list ends.
abbrev pub zip_with {ℓ κ μ} :
    {A : Type ℓ} {B : Type κ} {C : Type μ} → (A → B → C) → List A → List B → List C
zip_with f [] bs = []
zip_with f (a ∷ as') [] = []
zip_with f (a ∷ as') (b ∷ bs) = f a b ∷ zip_with f as' bs

-- A point of a collection, which its payload names.
unfoldable pub point_of : {V : Type 0} → Collection → String × V → Fields → Point V
unfolding put
point_of collection (i, v) p = record {
  point_id = i;
  vector = v;
  payload = put "_collection" (Json.text (collection_value collection)) p;
}

-- What a search requires of a hit: an empty service counts as none, and the extra filter follows.
unfoldable pub conditions : Option String → Conditions → Conditions
conditions none extra = extra
conditions (some s) extra = if str_eq s "" then extra else ("service", Json.text s) ∷ extra

abbrev pub filter_of : Conditions → Option Conditions
filter_of [] = none
filter_of (c ∷ cs) = some (c ∷ cs)

-- `show` is Python's text for a value.
unfoldable pub chunk_of : (Json → String) → ScoredPoint → RetrievedChunk
unfolding get_or
chunk_of show h = record {
  chunk_id = h.point_id;
  score = h.score;
  text = show (get_or "text" (Json.text "") h.payload);
  payload = h.payload;
}

module _ (client : Client) where
  -- `VectorStore.upsert`
  unfoldable pub upsert :
      Collection → List String → List client.Vector → List Fields → client.Stored → client.Stored
  unfolding point_of
  upsert collection ids vectors payloads stored =
      client.upsert (collection_value collection)
        (zip_with (point_of collection) (zip_with (λ i v. (i, v)) ids vectors) payloads) stored

  -- `VectorStore.search`
  unfoldable pub search :
      (Json → String)
      → Collection
      → client.Vector
      → ℕ
      → Option String
      → Conditions
      → client.Stored
      → List RetrievedChunk
  unfolding conditions chunk_of
  search show collection vector limit service extra stored = map (chunk_of show) (
      client.search (collection_value collection) vector (filter_of (conditions service extra))
        limit stored)
