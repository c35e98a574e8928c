-- ===== src/LanguageModel/Charges.antt =====
-- What the two clients of src/aegis_common/llm.py have in common.
use aegis_project.Prelude.{ℕ, ◌≤◌, ◌≡◌, true, false, Bool, Option, some, String, refl, arith}
use aegis_project.Prelude.Int.{ℤ, pos}
use aegis_project.Json.{Json, Fields, end, field, get, get_or, to_int}
use aegis_project.LanguageModel.{Text, estimate_tokens, respond, complete}
use aegis_project.LanguageModel.Client.{
  len, estimate_of, payload, read_answer, ollama_complete, get_llm,
}

module _ (parse : String → Option ℤ) where
  -- A body that holds only the content.
  abbrev pub only_content : String → Json
  only_content text =
      Json.obj (field "message" (Json.obj (field "content" (Json.text text) end)) end)

  -- Without counts from the server, both models charge alike: when the server answers with what
  -- the offline model would, and no counts, the clients' answers are the same.
  pub same_charge :
      (post : Fields → Option Json) (model : String) (t : Text) (system user : String)
      (json_mode : Bool)
      → post (payload model system user json_mode) ≡ some (only_content (respond t system user))
      → (get_llm parse true post model t).complete system user json_mode
        ≡ (get_llm parse false post model t).complete system user json_mode
  unfolding get_llm ollama_complete read_answer get_or get to_int estimate_of len estimate_tokens
      complete
  same_charge post model t system user json_mode h = rw h refl

  -- When the server does not answer the probe, every call of the client gets an answer, and its
  -- counts are at least one for the prompt and one for the text, so they charge the budget.
  pub fallback_charges :
      (post : Fields → Option Json) (model : String) (t : Text) (system user : String)
      (json_mode : Bool)
      → (text : String) × (m : ℕ) × (n : ℕ) × (1 ≤ m)
        × (1 ≤ n)
        × ((get_llm parse false post model t).complete system user json_mode
            ≡ some (record {
              text = Json.text text;
              prompt_tokens = pos m;
              completion_tokens = pos n;
            }))
  unfolding get_llm complete estimate_tokens
  fallback_charges post model t system user json_mode = (_, _, _, omega arith, omega arith, refl)
