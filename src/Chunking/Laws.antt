-- ===== src/Chunking/Laws.antt =====
-- The pieces of `_window` (src/aegis_common/chunking.py): what they hold, and when the loop ends.
use aegis_project.Prelude.{
  ℕ, zero, suc, ◌+◌, ◌-◌, ◌≤◌, ◌<◌, ◌≡◌, refl, sym, ap, ◌∙◌, inl, inr, Option, none, some, List, [],
  ◌∷◌, ◌++◌, take, drop, length, All, leb, arith, tests, Bool-cases,
}
use mathlib.Core.Path.{subst}
use mathlib.Core.List.{append-nil}
use aegis_project.Chunking.Window.{slice, cons_piece, window_from, whole, window}

module _ {A : Type 0} where
  drop-drop : (a b n : ℕ) (xs : List A) → n ≡ b + a → drop a (drop b xs) ≡ drop n xs
  drop-drop a zero n xs h = ap (λ m. drop m xs) (omega arith)
  drop-drop a (suc b) zero xs h = absurd (omega arith)
  drop-drop zero (suc b) (suc n) [] h = refl
  drop-drop (suc a) (suc b) (suc n) [] h = refl
  drop-drop a (suc b) (suc n) (x ∷ xs) h = drop-drop a b n xs (omega arith)

  drop-take : (k n : ℕ) (xs : List A) → k ≤ n → drop k (take n xs) ++ drop n xs ≡ drop k xs
  drop-take zero zero xs h = refl
  drop-take zero (suc n) [] h = refl
  drop-take zero (suc n) (x ∷ xs) h = ap (λ ys. x ∷ ys) (drop-take zero n xs (omega arith))
  drop-take (suc k) zero xs h = absurd (omega arith)
  drop-take (suc k) (suc n) [] h = refl
  drop-take (suc k) (suc n) (x ∷ xs) h = drop-take k n xs (omega arith)

  drop-length : (xs : List A) → drop (length xs) xs ≡ []
  drop-length [] = refl
  drop-length (x ∷ xs) = drop-length xs

  length-take : (n : ℕ) (xs : List A) → length (take n xs) ≤ n
  length-take zero xs = omega arith
  length-take (suc n) [] = omega arith
  length-take (suc n) (x ∷ xs) = omega (arith, length-take n xs)

  -- What follows the first k characters of a slice, followed by the text after the slice.
  drop-slice :
      (k start end : ℕ) (text : List A)
      → start + k ≤ end
      → drop k (slice start end text) ++ drop end text ≡ drop (start + k) text
  unfolding slice
  drop-slice k start end text h =
      ap (λ ys. drop k (take (end - start) (drop start text)) ++ ys)
        (sym (drop-drop (end - start) start end text (omega arith)))
      ∙ drop-take k (end - start) (drop start text) (omega arith)
      ∙ drop-drop k start (start + k) text refl

  length-slice :
      (start end n : ℕ) (text : List A) → end ≤ start + n → length (slice start end text) ≤ n
  unfolding slice
  length-slice start end n text h = omega (arith, length-take (end - start) (drop start text))

  module _ (max_chars overlap : ℕ) where
    window_last :
        (fuel start : ℕ) (text : List A)
        → start < length text
        → length text ≤ start + max_chars
        → window_from max_chars overlap (suc fuel) start text
          ≡ some (slice start (length text) text ∷ [])
    unfolding window_from
    window_last fuel start text hs he = ground arith

    window_more :
        (fuel start : ℕ) (text : List A)
        → start + max_chars < length text
        → window_from max_chars overlap (suc fuel) start text
          ≡ cons_piece
              (slice start (start + max_chars) text)
              (window_from max_chars overlap fuel (start + max_chars - overlap) text)
    unfolding window_from
    window_more fuel start text h = ground arith

    -- The pieces put together again: `k` characters of the first are dropped, and `overlap` of
    -- each that follows.
    unfoldable pub rejoin_from : ℕ → List (List A) → List A
    rejoin_from k [] = []
    rejoin_from k (piece ∷ pieces) = drop k piece ++ rejoin_from overlap pieces

    -- What a loop that starts at a position has to return.
    unfoldable pub Covers : ℕ → ℕ → List A → Option (List (List A)) → Type 0
    unfolding rejoin_from
    Covers k start text r =
        (pieces : List (List A)) × (r ≡ some pieces)
        × (rejoin_from k pieces ≡ drop (start + k) text)
        × All (λ piece. length piece ≤ max_chars) pieces

    last-Covers :
        (k start : ℕ) (text : List A)
        → start + k < length text
        → length text ≤ start + max_chars
        → Covers k start text (some (slice start (length text) text ∷ []))
    unfolding Covers rejoin_from
    last-Covers k start text hk he = (
      _,
      refl,
      ap (λ ys. drop k (slice start (length text) text) ++ ys) (sym (drop-length text))
          ∙ drop-slice k start (length text) text (omega arith),
      (length-slice start (length text) max_chars text he, tt),
    )

    more-Covers :
        (k start : ℕ) (text : List A)
        → (r : Option (List (List A))) → k ≤ max_chars
        → overlap < max_chars
        → Covers overlap (start + max_chars - overlap) text r
        → Covers k start text (cons_piece (slice start (start + max_chars) text) r)
    unfolding Covers rejoin_from
    more-Covers k start text r hk ho (pieces, e, j, sizes) = (
      _,
      ap (cons_piece _) e,
      ap (λ ys. drop k (slice start (start + max_chars) text) ++ ys)
            (j ∙ ap (λ n. drop n text) (omega arith))
          ∙ drop-slice k start (start + max_chars) text (omega arith),
      (length-slice start (start + max_chars) max_chars text (omega arith), sizes),
    )

    window_from-Covers :
        (fuel k start : ℕ) (text : List A)
        → length text < fuel + start
        → start + k < length text
        → k ≤ overlap
        → overlap < max_chars
        → Covers k start text (window_from max_chars overlap fuel start text)
    window_from-Covers zero k start text hf hs hk ho = absurd (omega arith)
    window_from-Covers (suc fuel) k start text hf hs hk ho =
        elim (Bool-cases (leb (length text) (start + max_chars))) [
          | inl e ↦
              subst (Covers k start text)
                (sym (window_last fuel start text (omega arith) (omega tests)))
                (last-Covers k start text hs (omega tests))
          | inr e ↦
              let more : start + max_chars < length text = ground arith in
              subst (Covers k start text) (sym (window_more fuel start text more)) (
                more-Covers k start text _ (omega arith) ho (
                  window_from-Covers fuel overlap (start + max_chars - overlap) text (omega arith)
                    (omega arith) (omega arith) ho))
        ]

    -- What `window` has to return: pieces of at most `max_chars` characters that give the text
    -- back when the overlap is dropped from each but the first.
    unfoldable pub Windows : List A → Option (List (List A)) → Type 0
    unfolding rejoin_from
    Windows text r =
        (pieces : List (List A)) × (r ≡ some pieces)
        × (rejoin_from 0 pieces ≡ text)
        × All (λ piece. length piece ≤ max_chars) pieces

    whole-Windows : (text : List A) → length text ≤ max_chars → Windows text (some (whole text))
    unfolding Windows rejoin_from
    whole-Windows [] h = (_, refl, refl, tt)
    whole-Windows (c ∷ cs) h = (_, refl, append-nil (c ∷ cs), (h, tt))

    window_short :
        (text : List A)
        → length text ≤ max_chars
        → window max_chars overlap text ≡ some (whole text)
    unfolding window
    window_short text h = ground arith

    window_long :
        (text : List A)
        → max_chars < length text
        → window max_chars overlap text ≡ window_from max_chars overlap (suc (length text)) 0 text
    unfolding window
    window_long text h = ground arith

    -- When the overlap is smaller than a piece may be, the loop of `window` ends, for every text:
    -- no piece has more than `max_chars` characters, and the pieces, without the overlap at the
    -- start of each but the first, are the text again.
    pub window-Windows :
        (text : List A) → overlap < max_chars → Windows text (window max_chars overlap text)
    unfolding Windows Covers
    window-Windows text h = elim (Bool-cases (leb (length text) max_chars)) [
      | inl e ↦
          subst (Windows text) (sym (window_short text (omega tests)))
            (whole-Windows text (omega tests))
      | inr e ↦
          let long : max_chars < length text = ground arith in
          subst (Windows text) (sym (window_long text long)) (
            window_from-Covers (suc (length text)) 0 0 text (omega arith) (omega arith)
              (omega arith) h)
    ]

    -- When the overlap is not smaller than a piece may be, the loop of `window` does not end on a
    -- text longer than a piece: it returns nothing, whatever fuel it is given.
    pub window_diverges :
        (fuel start : ℕ) (text : List A)
        → max_chars ≤ overlap
        → start + max_chars < length text
        → window_from max_chars overlap fuel start text ≡ none
    unfolding window_from
    window_diverges zero start text h hl = refl
    window_diverges (suc fuel) start text h hl =
        window_more fuel start text hl
        ∙ ap (cons_piece _)
            (window_diverges fuel (start + max_chars - overlap) text h (omega arith))
