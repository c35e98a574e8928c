-- ===== src/Examples/Start.antt =====
-- The theorems on the embeddings, the seeds, the collections and the live path at concrete values.
use Prim.Native.Char.{Char}
use Prim.Native.String.{String}
use aegis_project.Prelude.{
  ℕ, suc, ◌+◌, ◌*◌, ◌/◌, ◌==◌, ◌≡◌, ◌≢◌, refl, Bool, true, not, none, some, List, [], ◌∷◌, length,
  All, arith, str_eq,
}
use aegis_project.Prelude.Int.{ℤ, pos}
use aegis_project.Json.{Json, Fields, end, field, get, to_int}
use aegis_project.Texts.{chars}
use aegis_project.VectorStore.Collections.{
  Sizes, size_of, ensure_collections, ensure_collections-size_of,
}
use aegis_project.Embeddings.{Floats, Alphabet, Vector, embed_text, hashing_embedder}
use aegis_project.Embeddings.Laws.{embed_text_swapped, HasDim, hashing_embedder-HasDim}
use aegis_project.Executor.Runtime.{KubeApi, done, int_of}
use aegis_project.LanguageModel.{recommended_action}
use aegis_project.Executor.Runtime.{apply_sync}
use aegis_project.Executor.Saga.{get_action}
use aegis_project.Security.Params.{validate_action_params}
use aegis_project.Seed.{init_db}
use aegis_project.Seed.Laws.{IsAccepted, recommended_action-IsAccepted}
use aegis_project.Seed.Runtime.{Succeeds, seeded_action-Succeeds}
use aegis_project.Console.{Broadcaster}
use aegis_project.Console.Live.{LiveEvent, live_run, received, live_run-received}
use aegis_project.Examples.Fixtures.{env, db}

-- Whole numbers in place of floating point.
abbrev total : List ℕ → ℕ
total [] = 0
total (x ∷ xs) = x + total xs

abbrev floats : Floats
floats = record {
  Float = ℕ;
  zero_float = 0;
  add_one = suc;
  mul = λ a b. a * b;
  div = λ a b. a / b;
  sum = total;
  sqrt = λ n. n;
  is_zero = λ n. n == 0;
  one = 1;
}

abbrev is_blank : Char → Bool
is_blank c = str_eq (String.◌∷◌ c "") " "

abbrev alphabet : Alphabet
alphabet = record {
  is_alnum = λ c. not (is_blank c);
  lower = λ c. c ∷ [];
  is_space = is_blank;
  blank = " ";
  md5 = length;
}

hashing_embedder-HasDim_example :
    (vs : List (Vector floats)) × ((hashing_embedder floats alphabet 3).embed ("slow db" ∷ "" ∷ [])
      ≡ some vs)
    × (length vs ≡ 2)
    × All (HasDim floats alphabet 3) vs
hashing_embedder-HasDim_example =
    hashing_embedder-HasDim floats alphabet 3 (omega arith) refl ("slow db" ∷ "" ∷ [])

embed_text_swapped_example :
    embed_text floats alphabet 3 "slow db" ≡ embed_text floats alphabet 3 "db slow"
embed_text_swapped_example =
    embed_text_swapped floats alphabet 3 refl "slow db" "db slow" (chars "slow") (chars "db") " "
      " " refl refl refl refl

recommended_action-IsAccepted_example :
    IsAccepted (init_db (record db { catalog = [] })).catalog (recommended_action "restart the pod")
recommended_action-IsAccepted_example =
    recommended_action-IsAccepted (record db { catalog = [] }) "restart the pod" refl

-- A cluster that counts its patches.
abbrev kube : KubeApi
kube = record { Cluster = ℕ; patch = λ d ns p c. done (suc c) }

abbrev params : Fields
params =
    field "namespace" (Json.text "default")
      (field "deployment" (Json.text "api") (field "replicas" (Json.int (pos 5)) end))

five_is : (v : Json) → get "replicas" params ≡ some v → v ≡ Json.int (pos 5)
unfolding get
five_is v h = cc h

five : (v : Json) → get "replicas" params ≡ some v → (n : ℤ) × (int_of env v ≡ done n)
unfolding get to_int int_of
five v h = (pos 5, rw (five_is v h) refl)

seeded_action-Succeeds_example : Succeeds (apply_sync env kube "scale_replicas" params 0)
unfolding get_action validate_action_params
seeded_action-Succeeds_example =
    seeded_action-Succeeds env kube params 0 (λ d ns p c. (suc c, refl)) five "scale_replicas" _
      refl refl

abbrev old_sizes : Sizes
old_sizes = ("runbooks", 768) ∷ ("notes", 10) ∷ []

ensure_collections-size_of_example :
    size_of "runbooks" (ensure_collections 384 old_sizes) ≡ some 768
ensure_collections-size_of_example = ensure_collections-size_of 384 old_sizes "runbooks"

abbrev console : Broadcaster
console = record { clients = 1 ∷ []; delivered = [] }

-- A second client comes and goes, and one record cannot be read.
abbrev live : List LiveEvent
live =
    LiveEvent.connected 2
    ∷ LiveEvent.arrived (some (Json.bool true)) (λ c m. c == 1)
    ∷ LiveEvent.disconnected 2
    ∷ LiveEvent.arrived none (λ c m. true)
    ∷ []

two_not_one : (n : ℕ) → n ≡ 2 → n ≢ 1
two_not_one n e h = absurd (omega arith)

live_run-received_example : received 1 (live_run live console).delivered ≡ Json.bool true ∷ []
live_run-received_example =
    live_run-received 1 live console (tt, ((λ m. refl), (two_not_one 2 refl, ((λ m. refl), tt))))
      refl
