-- ===== src/VectorStore/Collections.antt =====
-- `VectorStore.ensure_collections` of src/aegis_common/vectorstore.py, and the start of the services
-- that call it (`_startup` of src/aegis_services/knowledge_ingestor/service.py and `lifespan` of
-- src/aegis_services/rag_service/app.py). A collection of the database is its name and the size of
-- its vectors.
use aegis_project.Prelude.{
  ℕ, ◌≡◌, inl, inr, refl, ap, ◌∙◌, Bool, true, false, Option, none, some, String, List, [], ◌∷◌,
  ◌++◌, length, All, arith, str_eq, eq_iff, any, ◌||◌, Bool-cases, Option-cases, if◌then◌else◌,
}
use aegis_project.Json.{Fields}
use aegis_project.Retrieval.{Collection}
use aegis_project.VectorStore.{collection_value}
use aegis_project.Embeddings.{
  Floats, Alphabet, Vector, Embedder, hashing_embedder, ollama_embedder, get_embedder,
}
use aegis_project.Embeddings.Laws.{HasDim, hashing_embedder-HasDim}

abbrev pub Sizes : Type 0
Sizes = List (String × ℕ)

abbrev pub size_of : String → Sizes → Option ℕ
size_of name [] = none
size_of name ((n, size) ∷ rows) = if str_eq n name then some size else size_of name rows

-- The body of the loop, on what `collection_exists` finds.
abbrev pub ensure : ℕ → Collection → Option ℕ → Sizes → Sizes
ensure dim c none rows = rows ++ (collection_value c, dim) ∷ []
ensure dim c (some size) rows = rows

unfoldable pub ensure_all : ℕ → List Collection → Sizes → Sizes
ensure_all dim [] rows = rows
ensure_all dim (c ∷ cs) rows =
    ensure_all dim cs (ensure dim c (size_of (collection_value c) rows) rows)

-- The members of `Collection`, in order.
abbrev pub members : List Collection
members = Collection.runbooks ∷ Collection.episodic ∷ Collection.arch_docs ∷ []

-- `ensure_collections`
unfoldable pub ensure_collections : ℕ → Sizes → Sizes
unfolding ensure_all
ensure_collections dim rows = ensure_all dim members rows

-- What a service holds once it has started: its model, and the collections of the database.
unfoldable pub startup :
    (floats : Floats)
    → Option (List String → Option (List (List floats.Float)))
    → (Fields → Option Fields)
    → String
    → Alphabet
    → Sizes
    → Embedder floats × Sizes
unfolding get_embedder ensure_collections
startup floats model post name alphabet rows =
    let embedder = get_embedder floats model post name alphabet in
    (embedder, ensure_collections embedder.dim rows)

-- The size of a collection after the loop: the old one where it was there.
abbrev pub size_or : ℕ → Option ℕ → ℕ
size_or dim none = dim
size_or dim (some size) = size

size_of-append :
    (name n : String) (size : ℕ) (rows : Sizes)
    → size_of name (rows ++ (n, size) ∷ []) ≡ elim (size_of name rows) [
      | none ↦ if str_eq n name then some size else none
      | some s ↦ some s
    ]
size_of-append name n size [] = refl
size_of-append name n size ((m, s) ∷ rows) = elim (Bool-cases (str_eq m name)) [
  | inl e ↦ rw e refl
  | inr e ↦ rw e (size_of-append name n size rows)
]

-- The size that a collection has when it is ensured, or only read.
abbrev ensured : ℕ → Bool → Option ℕ → Option ℕ
ensured dim true o = some (size_or dim o)
ensured dim false o = o

appended :
    (dim : ℕ) (b : Bool) (o : Option ℕ)
    → elim o [ none ↦ if b then some dim else none | some s ↦ some s ] ≡ ensured dim b o
appended dim true none = refl
appended dim true (some s) = refl
appended dim false none = refl
appended dim false (some s) = refl

present :
    (dim : ℕ) (b : Bool) (o : Option ℕ) → (b ≡ true → (s : ℕ) × (o ≡ some s)) → o ≡ ensured dim b o
present dim true o h = let (s, e) = h refl in rw e refl
present dim false o h = refl

ensured-ensured :
    (dim : ℕ) (a b : Bool) (o : Option ℕ) → ensured dim b (ensured dim a o) ≡ ensured dim (a || b) o
ensured-ensured dim true true o = refl
ensured-ensured dim true false o = refl
ensured-ensured dim false b o = refl

ensured-if :
    (dim : ℕ) (b : Bool) (o : Option ℕ) → ensured dim b o ≡ (if b then some (size_or dim o) else o)
ensured-if dim true o = refl
ensured-if dim false o = refl

abbrev pub is_named : String → Collection → Bool
is_named name c = str_eq (collection_value c) name

-- A round of the loop fills in its own collection and leaves the others.
ensure-size_of :
    (dim : ℕ) (c : Collection) (name : String) (rows : Sizes)
    → size_of name (ensure dim c (size_of (collection_value c) rows) rows)
      ≡ ensured dim (is_named name c) (size_of name rows)
ensure-size_of dim c name rows = elim (Option-cases (size_of (collection_value c) rows)) [
  | inl f ↦ rw f (
      size_of-append name (collection_value c) dim rows
      ∙ appended dim (is_named name c) (size_of name rows))
  | inr (s, f) ↦ rw f (
      present dim (is_named name c) (size_of name rows)
        (λ e. (s, rw ((eq_iff (collection_value c) name).0 e) at f)))
]

ensure_all-size_of :
    (dim : ℕ) (cs : List Collection) (name : String) (rows : Sizes)
    → size_of name (ensure_all dim cs rows)
      ≡ ensured dim (any (is_named name) cs) (size_of name rows)
unfolding ensure_all
ensure_all-size_of dim [] name rows = refl
ensure_all-size_of dim (c ∷ cs) name rows =
    ensure_all-size_of dim cs name (ensure dim c (size_of (collection_value c) rows) rows)
    ∙ ap (ensured dim (any (is_named name) cs)) (ensure-size_of dim c name rows)
    ∙ ensured-ensured dim (is_named name c) (any (is_named name) cs) (size_of name rows)

each_ensured :
    (dim : ℕ) (rows : Sizes) (c : Collection)
    → size_of (collection_value c) (ensure_collections dim rows)
      ≡ some (size_or dim (size_of (collection_value c) rows))
unfolding ensure_collections
each_ensured dim rows Collection.runbooks = ensure_all-size_of dim members "runbooks" rows
each_ensured dim rows Collection.episodic = ensure_all-size_of dim members "incidents_episodic" rows
each_ensured dim rows Collection.arch_docs = ensure_all-size_of dim members "architecture_docs" rows

-- After the loop a name of one of the three collections has a size: the model's dimension where it
-- was missing, and else the size that it had, also where that is not the model's dimension. Every
-- other name has what it had.
pub ensure_collections-size_of :
    (dim : ℕ) (rows : Sizes) (name : String)
    → size_of name (ensure_collections dim rows) ≡ (
        if any (is_named name) members
        then some (size_or dim (size_of name rows))
        else size_of name rows)
unfolding ensure_collections
ensure_collections-size_of dim rows name =
    ensure_all-size_of dim members name rows
    ∙ ensured-if dim (any (is_named name) members) (size_of name rows)

offline_startup :
    (floats : Floats) (post : Fields → Option Fields) (name : String) (alphabet : Alphabet)
    (rows : Sizes)
    → ((f : Fields) → post f ≡ none)
    → startup floats none post name alphabet rows
      ≡ (hashing_embedder floats alphabet 384, ensure_collections 384 rows)
unfolding startup get_embedder hashing_embedder ollama_embedder
offline_startup floats post name alphabet rows down = rw (down _) refl

-- When neither the local model nor the server can be used, 1.0 is not zero and the database has no collections, the
-- service starts with collections of the size that all vectors of its model have.
pub startup_matches :
    (floats : Floats) (post : Fields → Option Fields) (name : String) (alphabet : Alphabet)
    (texts : List String) (c : Collection)
    → ((f : Fields) → post f ≡ none)
    → floats.is_zero floats.one ≡ false
    → let (embedder, rows) = startup floats none post name alphabet [] in
      (vs : List (Vector floats)) × (embedder.embed texts ≡ some vs)
      × (size_of (collection_value c) rows ≡ some embedder.dim)
      × (length vs ≡ length texts)
      × All (HasDim floats alphabet embedder.dim) vs
unfolding hashing_embedder
startup_matches floats post name alphabet texts c down h1 =
    let (vs, e, k, d) = hashing_embedder-HasDim floats alphabet 384 (omega arith) h1 texts in
    rw (offline_startup floats post name alphabet [] down) (vs, e, each_ensured 384 [] c, k, d)
