-- ===== src/LanguageModel/Client.antt =====
-- `OllamaLLM` and `get_llm` of src/aegis_common/llm.py. The server's answers and `int` on a text are
-- arguments.
use aegis_project.Prelude.{ℕ, ◌/◌, max, suc, Bool, true, false, Option, none, some, String}
use aegis_project.Prelude.Int.{ℤ, pos}
use aegis_project.Json.{Json, Items, nil, cons, Fields, end, field, get_or, put, to_int}
use aegis_project.Schemas.{◌⧺◌}
use aegis_project.Texts.{text_length}
use aegis_project.LanguageModel.{LlmResponse, Text, estimate_tokens, complete}

-- What follows a value, unless an exception came before.
infixl 5 ◌>>=◌
abbrev ◌>>=◌ : {A B : Type 0} → Option A → (A → Option B) → Option B
◌>>=◌ none f = none
◌>>=◌ (some a) f = f a

-- An answer as its class holds it: the text is whatever the server gave as the content.
pub record Answer : Type 0 where
  pub text : Json
  pub prompt_tokens : ℤ
  pub completion_tokens : ℤ

abbrev count_items : Items → ℕ
count_items nil = 0
count_items (cons v vs) = suc (count_items vs)

abbrev count_fields : Fields → ℕ
count_fields end = 0
count_fields (field k v d) = suc (count_fields d)

-- `len`; the text of a UUID has 36 characters.
unfoldable pub len : Json → Option ℕ
unfolding text_length
len (Json.text s) = some (text_length s)
len (Json.uuid n) = some 36
len (Json.arr xs) = some (count_items xs)
len (Json.obj d) = some (count_fields d)
len _ = none

-- `_estimate_tokens` of a value that need not be a text.
unfoldable pub estimate_of : Json → Option ℤ
unfolding len
estimate_of v = elim (len v) [ none ↦ none | some n ↦ some (pos (max 1 (n / 4))) ]

-- One of the messages.
abbrev pub message : String → String → Json
message role content =
    Json.obj (field "role" (Json.text role) (field "content" (Json.text content) end))

-- The request of `OllamaLLM.complete`.
unfoldable pub payload : String → String → String → Bool → Fields
unfolding put
payload model system user json_mode =
    let base = field "model" (Json.text model) (
      field "stream" (Json.bool false) (
        field "messages"
          (Json.arr (cons (message "system" system) (cons (message "user" user) nil))) end)) in
    elim json_mode [ true ↦ put "format" (Json.text "json") base | false ↦ base ]

-- `data.get("message", {}).get("content", "")`
abbrev pub content_of : Json → Option Json
content_of (Json.obj m) = some (get_or "content" (Json.text "") m)
content_of _ = none

module _ (parse : String → Option ℤ) where
  -- `int(data.get(key, estimate))`
  abbrev pub count_in : String → ℤ → Fields → Option ℤ
  count_in key estimate body = to_int parse (get_or key (Json.int estimate) body)

  -- What is made of the body of the response, with the texts of the request; none where it raises.
  unfoldable pub read_answer : String → String → Json → Option Answer
  unfolding estimate_of estimate_tokens
  read_answer system user (Json.obj body) = do
    text ← content_of (get_or "message" (Json.obj end) body)
    prompt ← count_in "prompt_eval_count" (pos (estimate_tokens (system ⧺ user))) body
    estimate ← estimate_of text
    completion ← count_in "eval_count" estimate body
    some (record { text = text; prompt_tokens = prompt; completion_tokens = completion })
  read_answer system user _ = none

  -- `OllamaLLM.complete`: `post` gives the body of the response, or none where the request fails.
  unfoldable pub ollama_complete :
      (Fields → Option Json) → String → String → String → Bool → Option Answer
  unfolding payload read_answer
  ollama_complete post model system user json_mode = do
    body ← post (payload model system user json_mode)
    read_answer system user body

  -- The answer of the offline model, as its class holds it.
  abbrev pub as_answer : LlmResponse → Answer
  as_answer r = record {
    text = Json.text r.text;
    prompt_tokens = pos r.prompt_tokens;
    completion_tokens = pos r.completion_tokens;
  }

  -- A client's `complete`, and its name.
  pub record Client : Type 0 where
    pub name : String
    pub complete : String → String → Bool → Option Answer

  -- `get_llm`; the first argument tells whether the server answers the probe.
  unfoldable pub get_llm : Bool → (Fields → Option Json) → String → Text → Client
  unfolding ollama_complete complete
  get_llm true post model t = record {
    name = "ollama";
    complete = λ system user json_mode. ollama_complete post model system user json_mode;
  }
  get_llm false post model t = record {
    name = "rule-based-offline";
    complete = λ system user json_mode. some (as_answer (complete t system user));
  }
