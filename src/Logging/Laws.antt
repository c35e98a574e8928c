-- ===== src/Logging/Laws.antt =====
-- What the log lines of src/aegis_common/logging.py hold under each key.
use aegis_project.Prelude.{
  ◌≡◌, inl, inr, refl, sym, ap, ◌∙◌, Bool, true, false, Option, none, some, String, str_eq, eq_iff,
  eq_refl, Bool-cases, if◌then◌else◌,
}
use aegis_project.Json.{Json, Fields, end, field, get, put}
use aegis_project.Logging.{LogRecord, is_extra, attach, with_span, with_exc, base, format}

other_key : (i j k : String) → i ≡ k → str_eq i j ≡ false → str_eq j k ≡ false
other_key i j k same e = elim (Bool-cases (str_eq j k)) [
  | inl g ↦ absurd (cc (e, (eq_iff i j).1 (same ∙ sym ((eq_iff j k).0 g))))
  | inr g ↦ g
]

pub get-put :
    (k j : String) (v : Json) (d : Fields)
    → get k (put j v d) ≡ (if str_eq j k then some v else get k d)
unfolding get put
get-put k j v end = refl
get-put k j v (field i w d) = elim (Bool-cases (str_eq i j)) [
  | inl e ↦
      let same : i ≡ j = (eq_iff i j).0 e in
      elim (Bool-cases (str_eq j k)) [ inl f ↦ rw (e, same, f) refl | inr f ↦ rw (e, same, f) refl ]
  | inr e ↦ elim (Bool-cases (str_eq i k)) [
    | inl f ↦
        let same : i ≡ k = (eq_iff i k).0 f in
        let other : str_eq j k ≡ false = other_key i j k same e in rw (e, f, other) refl
    | inr f ↦ rw (e, f, get-put k j v d) refl
  ]
]

-- A dictionary holds each key once.
abbrev pub IsDict : Fields → Type 0
IsDict end = Unit
IsDict (field k v d) = (get k d ≡ none) × IsDict d

-- What is found under a key when the attribute of this name, if there is one, may be attached.
abbrev pub attached : Bool → Option Json → Option Json → Option Json
attached true (some v) old = some v
attached _ _ old = old

attached-none : (b : Bool) (old : Option Json) → attached b none old ≡ old
attached-none true old = refl
attached-none false old = refl

attach-get :
    (k : String) (d payload : Fields)
    → IsDict d
    → get k (attach d payload) ≡ attached (is_extra k) (get k d) (get k payload)
unfolding attach get
attach-get k end payload h = sym (attached-none (is_extra k) (get k payload))
attach-get k (field j v d) payload (h, hs) = elim (Bool-cases (str_eq j k)) [
  | inl e ↦
      let same : j ≡ k = (eq_iff j k).0 e in
      let absent : get k d ≡ none = ap (λ i. get i d) (sym same) ∙ h in
      elim (Bool-cases (is_extra k)) [
        | inl b ↦
            rw (same, eq_refl k, b)
              (attach-get k d (put k v payload) hs
                ∙ rw (absent, b, get-put k k v payload, eq_refl k) refl)
        | inr b ↦ rw (same, eq_refl k, b) (attach-get k d payload hs ∙ rw (absent, b) refl)
      ]
  | inr e ↦ elim (Bool-cases (is_extra j)) [
    | inl b ↦ rw (e, b) (attach-get k d (put j v payload) hs ∙ rw (get-put k j v payload, e) refl)
    | inr b ↦ rw (e, b) (attach-get k d payload hs)
  ]
]

with_exc-get :
    (k : String) (exc : Option String) (payload : Fields)
    → str_eq "exc" k ≡ false
    → get k (with_exc exc payload) ≡ get k payload
with_exc-get k none payload h = refl
with_exc-get k (some text) payload h = get-put k "exc" (Json.text text) payload ∙ rw h refl

with_span-msg :
    (span : Option (String × String)) (payload : Fields)
    → get "msg" (with_span span payload) ≡ get "msg" payload
with_span-msg none payload = refl
with_span-msg (some (trace, id)) payload =
    get-put "msg" "span_id" (Json.text id) (put "trace_id" (Json.text trace) payload)
    ∙ get-put "msg" "trace_id" (Json.text trace) payload

attached-reserved : (o old : Option Json) → attached false o old ≡ old
attached-reserved none old = refl
attached-reserved (some v) old = refl

-- Under every key but "exc", a line holds the attribute of that name if the record has one that is
-- neither reserved nor private, and else what the formatter itself puts there; in particular the
-- message is under "msg" whatever the attributes are.
pub format-get :
    (r : LogRecord)
    → IsDict r.attributes
    → ((k : String)
        → str_eq "exc" k ≡ false
        → get k (format r) ≡ attached (is_extra k) (get k r.attributes) (get k (base r)))
      × (get "msg" (format r) ≡ some (Json.text r.message))
unfolding format is_extra get
format-get r h =
    let at : (k : String)
        → str_eq "exc" k ≡ false
        → get k (format r) ≡ attached (is_extra k) (get k r.attributes) (get k (base r)) =
      λ k other.
        with_exc-get k r.exc (attach r.attributes (base r)) other
        ∙ attach-get k r.attributes (base r) h in
    (
      at,
      at "msg" refl
          ∙ attached-reserved (get "msg" r.attributes) (get "msg" (base r))
          ∙ unfold base in with_span-msg r.span _,
    )
