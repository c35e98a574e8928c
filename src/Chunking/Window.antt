-- ===== src/Chunking/Window.antt =====
-- `_window` of src/aegis_common/chunking.py. The loop takes fuel, and `none` means that it ran
-- out; one round more than the text has characters is enough when the overlap is smaller than the
-- window, and no fuel is enough when it is not (an overlap beyond `end` makes `start` negative in
-- the source and 0 here; the loop does not end either way).
use aegis_project.Prelude.{
  ℕ, zero, suc, ◌+◌, ◌-◌, min, true, false, Option, none, some, List, [], ◌∷◌, take, drop, length,
  leb, ltb, ◌==◌, if◌then◌else◌,
}

module _ {A : Type 0} where
  -- `text[start:end]`
  unfoldable pub slice : ℕ → ℕ → List A → List A
  slice start end text = take (end - start) (drop start text)

  abbrev pub cons_piece : List A → Option (List (List A)) → Option (List (List A))
  cons_piece piece none = none
  cons_piece piece (some out) = some (piece ∷ out)

  abbrev pub whole : List A → List (List A)
  whole [] = []
  whole (c ∷ cs) = (c ∷ cs) ∷ []

  module _ (max_chars overlap : ℕ) where
    -- The loop, from `start` on.
    unfoldable pub window_from : ℕ → ℕ → List A → Option (List (List A))
    unfolding slice
    window_from zero start text = none
    window_from (suc fuel) start text =
        let end = min (start + max_chars) (length text) in
        let piece = slice start end text in
        let rest = window_from fuel (end - overlap) text in
        elim (ltb start (length text)) [
          | false ↦ some []
          | true ↦ if end == length text then some (piece ∷ []) else cons_piece piece rest
        ]

    unfoldable pub window : List A → Option (List (List A))
    unfolding window_from
    window text =
        let pieces = window_from (suc (length text)) 0 text in
        if leb (length text) max_chars then some (whole text) else pieces
