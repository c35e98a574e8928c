-- ===== src/Orchestrator/Reading.antt =====
-- What src/aegis_services/orchestrator (agents.py, worker.py) reads in a model's answer and in the
-- response of the retrieval service.
use aegis_project.Prelude.{
  ◌+◌, ◌*◌, String, Bool, true, false, ◌&&◌, Option, none, some, List, [], ◌∷◌, str_eq,
  if◌then◌else◌,
}
use aegis_project.Prelude.Int.{ℤ, pos, negsuc, sub_ℕ}
use aegis_project.Json.{Json, Items, nil, cons, get, get_or, has, or_default}
use aegis_project.Security.Params.{iterate}
use aegis_project.Schemas.{text_leb}

pub record Evidence : Type 0 where
  pub citations : Option Json
  pub has_precedent : Option Json
  pub best_precedent_score : Option Json

-- The texts that a `for` goes through, or an exception.
abbrev pub texts_of_items : Items → Option (List String)
texts_of_items nil = some []
texts_of_items (cons (Json.text s) xs) = elim (texts_of_items xs) [
  | none ↦ none
  | some ss ↦ some (s ∷ ss)
]
texts_of_items (cons _ xs) = none

-- `set(x)` and `sep.join(x)` on what a `for` goes through
unfoldable pub texts_of : Json → Option (List String)
unfolding iterate
texts_of v = elim (iterate v) [ none ↦ none | some xs ↦ texts_of_items xs ]

abbrev sliceable : Json → Bool
sliceable (Json.text s) = true
sliceable (Json.arr xs) = true
sliceable _ = false

-- `len(x)`, which raises on a number or `None`
abbrev pub has_length : Json → Bool
has_length (Json.text s) = true
has_length (Json.uuid n) = true
has_length (Json.arr xs) = true
has_length (Json.obj d) = true
has_length _ = false

-- `h['citation']` and `h['text'][:280]` for every hit
abbrev pub readable_hits : Items → Bool
readable_hits nil = true
readable_hits (cons (Json.obj h) hs) =
    has "citation" h && sliceable (or_default Json.null (get "text" h)) && readable_hits hs
readable_hits (cons _ hs) = false

-- What the retriever reads in the response.
unfoldable pub evidence_of : Json → Option Evidence
unfolding get get_or iterate
evidence_of (Json.obj d) = elim (iterate (get_or "runbooks" (Json.arr nil) d)) [
  | none ↦ none
  | some hits ↦
      if readable_hits hits
      then some (record {
        citations = get "citations" d;
        has_precedent = get "has_precedent" d;
        best_precedent_score = get "best_precedent_score" d;
      })
      else none
]
evidence_of _ = none

abbrev insert_text : String → List String → List String
insert_text s [] = s ∷ []
insert_text s (t ∷ ts) =
    if str_eq s t then t ∷ ts else if text_leb s t then s ∷ t ∷ ts else t ∷ insert_text s ts

-- `sorted(set(a) | set(b))`
unfoldable pub merged_services : List String → List String → List String
merged_services [] [] = []
merged_services [] (t ∷ ts) = insert_text t (merged_services [] ts)
merged_services (s ∷ ss) ts = insert_text s (merged_services ss ts)

-- `float(x)`
unfoldable pub to_float : (String → Option ℤ) → Json → Option ℤ
to_float parse (Json.float z) = some z
to_float parse (Json.int (pos n)) = some (pos (n * 1000000))
to_float parse (Json.int (negsuc n)) = some (sub_ℕ 0 ((n + 1) * 1000000))
to_float parse (Json.bool b) = some (if b then pos 1000000 else pos 0)
to_float parse (Json.text s) = parse s
to_float parse _ = none
