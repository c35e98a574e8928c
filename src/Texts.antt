-- ===== src/Texts.antt =====
-- Python's operations on texts, through their characters.
use Prim.Native.Char.{Char}
use Prim.Native.String.{String}
use aegis_project.Prelude.{ℕ, Bool, true, false, ◌&&◌, ◌||◌, List, [], ◌∷◌, length, take, str_eq}

-- A text as its characters, and back.
abbrev pub chars : String → List Char
chars String.[] = []
chars (String.◌∷◌ c s) = c ∷ chars s

abbrev pub pack : List Char → String
pack [] = ""
pack (c ∷ cs) = String.◌∷◌ c (pack cs)

-- `len(s)`
unfoldable pub text_length : String → ℕ
text_length s = length (chars s)

abbrev char_eq : Char → Char → Bool
char_eq c d = str_eq (String.◌∷◌ c "") (String.◌∷◌ d "")

abbrev starts_with : List Char → List Char → Bool
starts_with [] s = true
starts_with (c ∷ cs) [] = false
starts_with (c ∷ cs) (d ∷ ds) = char_eq c d && starts_with cs ds

abbrev occurs : List Char → List Char → Bool
occurs k [] = starts_with k []
occurs k (c ∷ cs) = starts_with k (c ∷ cs) || occurs k cs

-- `k in s`
unfoldable pub contains : String → String → Bool
contains k s = occurs (chars k) (chars s)

-- `s[:n]`
unfoldable pub prefix_text : ℕ → String → String
prefix_text n s = pack (take n (chars s))
