-- ===== src/Chunking.antt =====
-- src/aegis_common/chunking.py: the chunks of a runbook. A text is the list of its characters; the
-- matches of the heading pattern (as spans) and the characters that `strip` takes are arguments.
pub mod Window
pub mod Laws
pub mod Numbering
use Prim.Native.Char.{Char}
use aegis_project.Prelude.{
  ℕ, ◌+◌, ◌-◌, Bool, true, false, Option, none, some, List, [], ◌∷◌, ◌++◌, take, drop, length,
}
use aegis_project.Chunking.Window.{slice, window}
use mathlib.Core.List.{reverse}

pub record Chunk : Type 0 where
  pub text : List Char
  pub ordinal : ℕ
  pub heading : List Char

-- `_HEADING.finditer`, `str.isspace` on a character, and the newline.
pub record Lexer : Type 0 where
  pub finditer : List Char → List (ℕ × ℕ)
  pub is_space : Char → Bool
  pub newline : Char

-- Where the section of a heading ends: at the next heading, or at the end of the text.
abbrev pub next_start : ℕ → List (ℕ × ℕ) → ℕ
next_start end [] = end
next_start end ((start, stop) ∷ ms) = start

-- The pieces of a section, numbered from an ordinal on.
unfoldable pub number_pieces : ℕ → List Char → List (List Char) → List Chunk
number_pieces ordinal heading [] = []
number_pieces ordinal heading (piece ∷ pieces) =
    record { text = piece; ordinal = ordinal; heading = heading }
    ∷ number_pieces (ordinal + 1) heading pieces

abbrev pub append_chunks : List Chunk → Option (List Chunk) → Option (List Chunk)
append_chunks cs none = none
append_chunks cs (some ds) = some (cs ++ ds)

module _ (lexer : Lexer) where
  abbrev pub lstrip : List Char → List Char
  lstrip [] = []
  lstrip (c ∷ cs) = elim (lexer.is_space c) [ true ↦ lstrip cs | false ↦ c ∷ cs ]

  -- `str.strip`
  unfoldable pub strip : List Char → List Char
  strip t = reverse (lstrip (reverse (lstrip t)))

  -- The loop over the matches: heading and body of each section.
  unfoldable pub sections_at : List Char → List (ℕ × ℕ) → List (List Char × List Char)
  unfolding strip
  sections_at text [] = []
  sections_at text ((start, stop) ∷ ms) =
      (strip (slice start stop text), strip (slice stop (next_start (length text) ms) text))
      ∷ sections_at text ms

  unfoldable pub sections : List Char → List (ℕ × ℕ) → List (List Char × List Char)
  unfolding sections_at
  sections text [] = ([], text) ∷ []
  sections text (m ∷ ms) = sections_at text (m ∷ ms)

  -- What is cut into windows.
  unfoldable pub content : List Char → List Char → List Char
  unfolding strip
  content [] body = body
  content (c ∷ cs) body = strip ((c ∷ cs) ++ lexer.newline ∷ body)

  -- The loop over the sections; `none` stands for a window loop that does not end.
  unfoldable pub chunk_sections : ℕ → ℕ → ℕ → List (List Char × List Char) → Option (List Chunk)
  unfolding content number_pieces
  chunk_sections max_chars overlap ordinal [] = some []
  chunk_sections max_chars overlap ordinal ((heading, body) ∷ rest) =
      elim (window max_chars overlap (content heading body)) [
        | none ↦ none
        | some pieces ↦
            append_chunks (number_pieces ordinal heading pieces)
              (chunk_sections max_chars overlap (ordinal + length pieces) rest)
      ]

  abbrev pub chunk_stripped : ℕ → ℕ → List Char → Option (List Chunk)
  unfolding sections chunk_sections
  chunk_stripped max_chars overlap [] = some []
  chunk_stripped max_chars overlap (c ∷ cs) =
      chunk_sections max_chars overlap 0 (sections (c ∷ cs) (lexer.finditer (c ∷ cs)))

  -- `chunk_markdown`
  unfoldable pub chunk_markdown : ℕ → ℕ → List Char → Option (List Chunk)
  unfolding strip chunk_stripped
  chunk_markdown max_chars overlap text = chunk_stripped max_chars overlap (strip text)
