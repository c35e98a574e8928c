-- ===== src/Security/Params.antt =====
-- `validate_action_params` of src/aegis_common/security.py.
use Prim.Native.String.{String}
use aegis_project.Prelude.{Bool, false, Option, none, some, List, [], ◌∷◌, if◌then◌else◌}
use aegis_project.Json.{Json, Items, nil, cons, Fields, end, field, get_or, has}

-- `valid`, or what is raised: an `ActionValidationError`, or the `TypeError` of a schema whose
-- `required` is no collection of keys.
pub data Verdict : Type 0 where
  valid : Verdict
  not_object : Verdict
  missing : List Json → Verdict
  bad_schema : Verdict

abbrev letters : String → Items
letters String.[] = nil
letters (String.◌∷◌ c s) = cons (Json.text (String.◌∷◌ c String.[])) (letters s)

abbrev keys : Fields → Items
keys end = nil
keys (field k v d) = cons (Json.text k) (keys d)

-- What a `for` over the value goes through; `none` where Python raises.
unfoldable pub iterate : Json → Option Items
iterate (Json.arr xs) = some xs
iterate (Json.obj d) = some (keys d)
iterate (Json.text s) = some (letters s)
iterate _ = none

-- `k in params`: only a text can be a key.
unfoldable pub holds_key : Fields → Json → Bool
unfolding has
holds_key params (Json.text k) = has k params
holds_key params _ = false

-- `[k for k in required if k not in params]`
unfoldable pub missing_keys : Fields → Items → List Json
unfolding holds_key
missing_keys params nil = []
missing_keys params (cons k ks) =
    if holds_key params k then missing_keys params ks else k ∷ missing_keys params ks

abbrev pub verdict : List Json → Verdict
verdict [] = valid
verdict (k ∷ ks) = missing (k ∷ ks)

unfoldable pub check_required : Fields → Option Items → Verdict
unfolding missing_keys
check_required params none = bad_schema
check_required params (some required) = verdict (missing_keys params required)

unfoldable pub validate_action_params : Json → Fields → Verdict
unfolding check_required get_or iterate
validate_action_params (Json.obj params) schema =
    check_required params (iterate (get_or "required" (Json.arr nil) schema))
validate_action_params _ schema = not_object
