-- ===== src/Chunking/Numbering.antt =====
-- The chunks of `chunk_markdown` (src/aegis_common/chunking.py): their sizes and their numbers.
use mathlib.Core.Path.{subst}
use aegis_project.Prelude.{
  ℕ, ◌+◌, ◌≤◌, ◌<◌, ◌≡◌, refl, Option, some, List, [], ◌∷◌, ◌++◌, length, All, arith,
}
use aegis_project.Chunking.{
  Chunk, Lexer, content, number_pieces, chunk_sections, chunk_stripped, chunk_markdown, strip,
  sections,
}
use Prim.Native.Char.{Char}
use aegis_project.Chunking.Laws.{Windows, window-Windows}

-- Chunks of bounded size, whose ordinals count on from a number.
abbrev pub Numbered : ℕ → ℕ → List Chunk → Type 0
Numbered max_chars n [] = Unit
Numbered max_chars n (c ∷ cs) =
    (c.ordinal ≡ n) × (length c.text ≤ max_chars) × Numbered max_chars (n + 1) cs

-- A result with such chunks.
unfoldable pub NumberedResult : ℕ → ℕ → Option (List Chunk) → Type 0
NumberedResult max_chars n r = (cs : List Chunk) × (r ≡ some cs) × Numbered max_chars n cs

number_pieces-Numbered :
    (max_chars n : ℕ) (heading : List Char) (pieces : List (List Char)) (rest : List Chunk)
    → All (λ p. length p ≤ max_chars) pieces
    → Numbered max_chars (n + length pieces) rest
    → Numbered max_chars n (number_pieces n heading pieces ++ rest)
unfolding number_pieces
number_pieces-Numbered max_chars n heading [] rest h hr =
    subst (λ m. Numbered max_chars m rest) (omega arith) hr
number_pieces-Numbered max_chars n heading (p ∷ ps) rest h hr = (
  refl,
  h.0,
  number_pieces-Numbered max_chars (n + 1) heading ps rest h.1
      (subst (λ m. Numbered max_chars m rest) (omega arith) hr),
)

module _ (lexer : Lexer) where
  chunk_sections-Numbered :
      (max_chars overlap n : ℕ) (ss : List (List Char × List Char))
      → overlap < max_chars
      → NumberedResult max_chars n (chunk_sections lexer max_chars overlap n ss)
  unfolding chunk_sections NumberedResult Windows
  chunk_sections-Numbered max_chars overlap n [] h = ([], refl, tt)
  chunk_sections-Numbered max_chars overlap n ((heading, body) ∷ ss) h =
      let (pieces, e, r, sizes) = window-Windows max_chars overlap (content lexer heading body) h in
      let (cs, e', numbered) = chunk_sections-Numbered max_chars overlap (n + length pieces) ss h in
      (
        number_pieces n heading pieces ++ cs,
        cc,
        number_pieces-Numbered max_chars n heading pieces cs sizes numbered,
      )

  chunk_stripped-Numbered :
      (max_chars overlap : ℕ) (text : List Char)
      → overlap < max_chars
      → NumberedResult max_chars 0 (chunk_stripped lexer max_chars overlap text)
  unfolding NumberedResult chunk_stripped
  chunk_stripped-Numbered max_chars overlap [] h = ([], refl, tt)
  chunk_stripped-Numbered max_chars overlap (c ∷ cs) h =
      chunk_sections-Numbered max_chars overlap 0
        (sections lexer (c ∷ cs) (lexer.finditer (c ∷ cs))) h

  -- When the overlap is smaller than a piece may be, `chunk_markdown` ends for every text,
  -- whatever its headings are: the chunks are numbered 0, 1, 2 and so on across the sections, and
  -- none has more than `max_chars` characters.
  pub chunk_markdown-Numbered :
      (max_chars overlap : ℕ) (text : List Char)
      → overlap < max_chars
      → NumberedResult max_chars 0 (chunk_markdown lexer max_chars overlap text)
  unfolding chunk_markdown
  chunk_markdown-Numbered max_chars overlap text h =
      chunk_stripped-Numbered max_chars overlap (strip lexer text) h
