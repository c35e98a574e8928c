-- ===== src/Embeddings.antt =====
-- src/aegis_common/embeddings.py: the embedding models and the choice between them. The floating
-- point operations, the characters' tests, MD5 and the model servers are arguments.
pub mod Tokens
pub mod Laws
use Prim.Native.Char.{Char}
use aegis_project.Prelude.{
  ℕ, zero, suc, ◌%◌, ◌==◌, Bool, true, false, Option, none, some, String, List, [], ◌∷◌, ◌++◌, map,
  keep, if◌then◌else◌,
}
use aegis_project.Json.{Json, Fields, end, field, get}
use aegis_project.Texts.{chars}

-- `float`, with `sum`, `math.sqrt` and the test of `or`.
pub record Floats : Type 1 where
  pub Float : Type 0
  pub zero_float : Float
  pub add_one : Float → Float
  pub mul : Float → Float → Float
  pub div : Float → Float → Float
  pub sum : List Float → Float
  pub sqrt : Float → Float
  pub is_zero : Float → Bool
  pub one : Float

-- `str.isalnum`, `str.lower` and `str.isspace` of one character, and MD5 of a text as a number.
pub record Alphabet : Type 0 where
  pub is_alnum : Char → Bool
  pub lower : Char → List Char
  pub is_space : Char → Bool
  pub blank : Char
  pub md5 : List Char → ℕ

abbrev pub flat_map {ℓ κ} : {A : Type ℓ} {B : Type κ} → (A → List B) → List A → List B
flat_map f [] = []
flat_map f (x ∷ xs) = f x ++ flat_map f xs

-- `[x] * n`
abbrev pub replicate {ℓ} : {A : Type ℓ} → ℕ → A → List A
replicate zero x = []
replicate (suc n) x = x ∷ replicate n x

abbrev pub is_nonempty : List Char → Bool
is_nonempty [] = false
is_nonempty (c ∷ cs) = true

-- A finished word before further ones.
abbrev pub emit_word : List Char → List (List Char) → List (List Char)
emit_word [] ws = ws
emit_word (c ∷ cs) ws = (c ∷ cs) ∷ ws

module _ (alphabet : Alphabet) where
  -- `str.split()` behind the characters of a word that has begun.
  abbrev pub split_words : List Char → List Char → List (List Char)
  split_words word [] = emit_word word []
  split_words word (c ∷ cs) =
      if alphabet.is_space c
      then emit_word word (split_words [] cs)
      else split_words (word ++ c ∷ []) cs

  abbrev pub normalized : Char → List Char
  normalized c = if alphabet.is_alnum c then alphabet.lower c else alphabet.blank ∷ []

  -- `_tokenize`
  unfoldable pub tokenize : List Char → List (List Char)
  tokenize text = keep is_nonempty (split_words [] (flat_map normalized text))

-- What follows a computation that can raise (`none`).
abbrev pub after {ℓ κ} : {A : Type ℓ} {B : Type κ} → Option A → (A → Option B) → Option B
after none f = none
after (some x) f = f x

abbrev pub with_head {ℓ} : {A : Type ℓ} → A → Option (List A) → Option (List A)
with_head x none = none
with_head x (some xs) = some (x ∷ xs)

module _ (floats : Floats) where
  -- `v / n`, which raises at zero.
  abbrev pub divided : floats.Float → floats.Float → Option floats.Float
  divided v n = if floats.is_zero n then none else some (floats.div v n)

  -- `[v / norm for v in vec]`
  abbrev pub divide_all : floats.Float → List floats.Float → Option (List floats.Float)
  divide_all n [] = some []
  divide_all n (v ∷ vs) = after (divided v n) (λ w. with_head w (divide_all n vs))

  -- `_l2_normalize`; `none` where a division by zero raises.
  unfoldable pub l2_normalize : List floats.Float → Option (List floats.Float)
  l2_normalize vec =
      let root = floats.sqrt (floats.sum (map (λ v. floats.mul v v) vec)) in
      let norm = if floats.is_zero root then floats.one else root in divide_all norm vec

  -- `vec[i] += 1.0`; `none` where the index is out of range and raises.
  abbrev pub bump : ℕ → List floats.Float → Option (List floats.Float)
  bump i [] = none
  bump zero (v ∷ vs) = some (floats.add_one v ∷ vs)
  bump (suc i) (v ∷ vs) = with_head v (bump i vs)

  module _ (alphabet : Alphabet) (dim : ℕ) where
    -- One token; `none` also where the remainder by zero raises.
    unfoldable pub count_token : List Char → List floats.Float → Option (List floats.Float)
    count_token t vec = if dim == 0 then none else bump (alphabet.md5 t % dim) vec

    -- The inner loop of `HashingEmbedder.embed`.
    unfoldable pub count_tokens : List (List Char) → List floats.Float → Option (List floats.Float)
    unfolding count_token
    count_tokens [] vec = some vec
    count_tokens (t ∷ ts) vec = after (count_token t vec) (λ v. count_tokens ts v)

    unfoldable pub embed_text : String → Option (List floats.Float)
    unfolding count_tokens l2_normalize
    embed_text text =
        after (count_tokens (tokenize alphabet (chars text)) (replicate dim floats.zero_float))
          l2_normalize

-- The vectors of all texts, in order; `none` where one raises.
abbrev pub push_vector {ℓ} : {V : Type ℓ} → Option V → Option (List V) → Option (List V)
push_vector (some v) (some vs) = some (v ∷ vs)
push_vector _ _ = none

abbrev pub embed_each {ℓ} : {V : Type ℓ} → (String → Option V) → List String → Option (List V)
embed_each embed [] = some []
embed_each embed (t ∷ ts) = push_vector (embed t) (embed_each embed ts)

-- A vector of numbers, or what a server answered under "embedding".
pub data Vector (floats : Floats) : Type 0 where
  numbers : List floats.Float → Vector floats
  answered : Json → Vector floats

pub record Embedder (floats : Floats) : Type 0 where
  pub name : String
  pub dim : ℕ
  pub embed : List String → Option (List (Vector floats))

module _ (floats : Floats) where
  abbrev pub as_numbers : Option (List floats.Float) → Option (Vector floats)
  as_numbers none = none
  as_numbers (some v) = some (Vector.numbers v)

  -- `HashingEmbedder(dim)`
  unfoldable pub hashing_embedder : Alphabet → ℕ → Embedder floats
  unfolding embed_text
  hashing_embedder alphabet dim = record {
    name = "hashing-fallback";
    dim = dim;
    embed = embed_each (λ t. as_numbers (embed_text floats alphabet dim t));
  }

  -- `FastEmbedEmbedder`, on what its model gives for the texts.
  unfoldable pub fast_embedder : (List String → Option (List (List floats.Float))) → Embedder floats
  fast_embedder model = record {
    name = "fastembed";
    dim = 384;
    embed = λ texts. elim (model texts) [ none ↦ none | some vs ↦ some (map Vector.numbers vs) ];
  }

  -- The body of a response of the server, when it has the key "embedding".
  abbrev pub answer_of : Option Fields → Option (Vector floats)
  answer_of none = none
  answer_of (some body) = elim (get "embedding" body) [
    | none ↦ none
    | some v ↦ some (Vector.answered v)
  ]

  -- `OllamaEmbedder`: `post` gives the body of a response, or none where the request fails.
  unfoldable pub ollama_embedder : (Fields → Option Fields) → String → Embedder floats
  ollama_embedder post model = record {
    name = "ollama";
    dim = 768;
    embed = embed_each (λ t.
        answer_of (post (field "model" (Json.text model) (field "prompt" (Json.text t) end))));
  }

  abbrev pub after_probe :
      Option (List (Vector floats)) → Embedder floats → Embedder floats → Embedder floats
  after_probe (some vs) ollama fallback = ollama
  after_probe none ollama fallback = fallback

  -- `get_embedder`: the local model when it can be loaded, else the server when it answers a
  -- probe, else the hashing fallback.
  unfoldable pub get_embedder :
      Option (List String → Option (List (List floats.Float)))
      → (Fields → Option Fields)
      → String
      → Alphabet
      → Embedder floats
  unfolding hashing_embedder fast_embedder ollama_embedder
  get_embedder (some model) post name alphabet = fast_embedder model
  get_embedder none post name alphabet =
      let ollama = ollama_embedder post name in
      after_probe (ollama.embed ("healthcheck" ∷ [])) ollama (hashing_embedder alphabet 384)
