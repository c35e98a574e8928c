-- ===== src/Logging.antt =====
-- `JsonFormatter` of src/aegis_common/logging.py. The clock, the text of an exception and the active
-- span are parts of the record that is formatted; `json.dumps` of the result is left to the caller.
pub mod Laws
use aegis_project.Prelude.{
  ◌≡◌, inl, inr, refl, sym, ap, ◌∙◌, Bool, true, false, not, ◌&&◌, ◌||◌, Option, none, some, String,
  List, [], ◌∷◌, any, arith, str_eq, eq_iff, eq_refl, Bool-cases, if◌then◌else◌,
}
use aegis_project.Json.{Json, Fields, end, field, get, put}
use aegis_project.Texts.{prefix_text}

-- A record: its attributes, those of `extra` among them, and what the formatter reads beside them.
pub record LogRecord : Type 0 where
  pub ts : String
  pub levelname : String
  pub name : String
  pub message : String
  pub span : Option (String × String)
  pub attributes : Fields
  pub exc : Option String

-- `_RESERVED`: the documented attributes of a record, and three more.
abbrev pub reserved : List String
reserved =
    "name" ∷ "msg" ∷ "args" ∷ "levelname" ∷ "levelno" ∷ "pathname" ∷ "filename" ∷ "module"
    ∷ "exc_info" ∷ "exc_text" ∷ "stack_info" ∷ "lineno" ∷ "funcName" ∷ "created" ∷ "msecs"
    ∷ "relativeCreated" ∷ "thread" ∷ "threadName" ∷ "processName" ∷ "process" ∷ "message"
    ∷ "asctime" ∷ "taskName" ∷ []

-- Whether the loop attaches an attribute of this name.
unfoldable pub is_extra : String → Bool
is_extra key = not (any (str_eq key) reserved) && not (str_eq (prefix_text 1 key) "_")

-- The loop over the attributes.
unfoldable pub attach : Fields → Fields → Fields
unfolding is_extra put
attach end payload = payload
attach (field key value d) payload =
    attach d (if is_extra key then put key value payload else payload)

abbrev pub with_span : Option (String × String) → Fields → Fields
with_span none payload = payload
with_span (some (trace, span)) payload =
    put "span_id" (Json.text span) (put "trace_id" (Json.text trace) payload)

abbrev pub with_exc : Option String → Fields → Fields
with_exc none payload = payload
with_exc (some text) payload = put "exc" (Json.text text) payload

-- The payload before the attributes.
unfoldable pub base : LogRecord → Fields
base r = with_span r.span (
    field "ts" (Json.text r.ts) (
      field "level" (Json.text r.levelname)
        (field "logger" (Json.text r.name) (field "msg" (Json.text r.message) end))))

-- `format`, up to `json.dumps`
unfoldable pub format : LogRecord → Fields
unfolding base attach
format r = with_exc r.exc (attach r.attributes (base r))
