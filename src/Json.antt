-- ===== src/Json.antt =====
-- The values that `json.loads` and the JSONB columns hold, and Python's operations on such
-- dictionaries. A number with a fraction is counted in millionths; the text of a UUID is the
-- constructor `uuid` on the number that stands for it.
use aegis_project.Prelude.{
  ℕ, zero, suc, ◌*◌, ◌/◌, String, Bool, true, false, not, ◌&&◌, Option, none, some, str_eq, ◌==◌,
  if◌then◌else◌,
}
use aegis_project.Prelude.Int.{ℤ, pos, negsuc, sub_ℕ}

mutual
  pub data Json : Type 0 where
    null : Json
    bool : Bool → Json
    int : ℤ → Json
    float : ℤ → Json
    text : String → Json
    uuid : ℕ → Json
    arr : Items → Json
    obj : Fields → Json

  pub data Items : Type 0 where
    nil : Items
    cons : Json → Items → Items

  -- A dictionary with text keys, in order of insertion.
  pub data Fields : Type 0 where
    end : Fields
    field : String → Json → Fields → Fields

-- `d.get(k)`
unfoldable pub get : String → Fields → Option Json
get k end = none
get k (field j v d) = if str_eq j k then some v else get k d

abbrev pub or_default : Json → Option Json → Json
or_default d none = d
or_default d (some v) = v

-- `d.get(k, default)`
unfoldable pub get_or : String → Json → Fields → Json
unfolding get
get_or k default d = or_default default (get k d)

abbrev pub is_some {ℓ} : {A : Type ℓ} → Option A → Bool
is_some none = false
is_some (some _) = true

-- `k in d`
unfoldable pub has : String → Fields → Bool
unfolding get
has k d = is_some (get k d)

-- `d[k] = v`
unfoldable pub put : String → Json → Fields → Fields
put k v end = field k v end
put k v (field j w d) = if str_eq j k then field j v d else field j w (put k v d)

abbrev is_zero : ℤ → Bool
is_zero (pos zero) = true
is_zero _ = false

-- Python's truth of a value
abbrev pub truthy : Json → Bool
truthy Json.null = false
truthy (Json.bool b) = b
truthy (Json.int z) = not (is_zero z)
truthy (Json.float z) = not (is_zero z)
truthy (Json.text s) = not (str_eq s "")
truthy (Json.uuid n) = true
truthy (Json.arr nil) = false
truthy (Json.arr (cons v xs)) = true
truthy (Json.obj end) = false
truthy (Json.obj (field k v d)) = true

-- Python's `int`: towards zero on a number with a fraction, `none` where it raises. What it reads
-- in a text is the argument `parse`.
unfoldable pub to_int : (String → Option ℤ) → Json → Option ℤ
to_int parse Json.null = none
to_int parse (Json.bool b) = some (if b then pos 1 else pos 0)
to_int parse (Json.int z) = some z
to_int parse (Json.float (pos n)) = some (pos (n / 1000000))
to_int parse (Json.float (negsuc n)) = some (sub_ℕ 0 (suc n / 1000000))
to_int parse (Json.text s) = parse s
to_int parse (Json.uuid n) = none
to_int parse (Json.arr xs) = none
to_int parse (Json.obj d) = none

abbrev size : Fields → ℕ
size end = 0
size (field k v d) = suc (size d)

abbrev pub int_eq : ℤ → ℤ → Bool
int_eq (pos m) (pos n) = m == n
int_eq (negsuc m) (negsuc n) = m == n
int_eq _ _ = false

abbrev millionths : ℤ → ℤ
millionths (pos n) = pos (n * 1000000)
millionths (negsuc n) = sub_ℕ 0 (suc n * 1000000)

-- A number as a count of millionths; `True` is 1.
abbrev number : Json → Option ℤ
number (Json.bool b) = some (if b then pos 1000000 else pos 0)
number (Json.int z) = some (millionths z)
number (Json.float z) = some z
number _ = none

abbrev number_eq : Option ℤ → Option ℤ → Bool
number_eq (some a) (some b) = int_eq a b
number_eq _ _ = false

-- Python's `==`: numbers by value, dictionaries in any order.
unfoldable mutual
  unfolding get

  pub json_eq : Json → Json → Bool
  json_eq Json.null Json.null = true
  json_eq (Json.text s) (Json.text t) = str_eq s t
  json_eq (Json.uuid m) (Json.uuid n) = m == n
  json_eq (Json.arr xs) (Json.arr ys) = items_eq xs ys
  json_eq (Json.obj d) (Json.obj e) = size d == size e && fields_eq d e
  json_eq v w = number_eq (number v) (number w)

  pub items_eq : Items → Items → Bool
  items_eq nil nil = true
  items_eq (cons v xs) (cons w ys) = json_eq v w && items_eq xs ys
  items_eq _ _ = false

  pub fields_eq : Fields → Fields → Bool
  fields_eq end e = true
  fields_eq (field k v d) e =
      elim (get k e) [ none ↦ false | some w ↦ json_eq v w ] && fields_eq d e
