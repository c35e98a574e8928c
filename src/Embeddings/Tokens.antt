-- ===== src/Embeddings/Tokens.antt =====
-- `_tokenize` of src/aegis_common/embeddings.py: how the tokens of a text come from its parts.
use Prim.Native.Char.{Char}
use mathlib.Core.List.{append_assoc}
use aegis_project.Prelude.{
  ◌≡◌, inl, inr, refl, sym, ap, Bool, true, false, List, [], ◌∷◌, ◌++◌, keep, Bool-cases,
}
use aegis_project.Embeddings.{
  Alphabet, flat_map, is_nonempty, emit_word, split_words, normalized, tokenize,
}

flat_map-append {ℓ κ} :
    {A : Type ℓ} {B : Type κ} (f : A → List B) (xs ys : List A)
    → flat_map f (xs ++ ys) ≡ flat_map f xs ++ flat_map f ys
flat_map-append f [] ys = refl
flat_map-append f (x ∷ xs) ys =
    rw (flat_map-append f xs ys) (sym (append_assoc (f x) (flat_map f xs) (flat_map f ys)))

keep-append {ℓ} :
    {A : Type ℓ} (p : A → Bool) (xs ys : List A) → keep p (xs ++ ys) ≡ keep p xs ++ keep p ys
keep-append p [] ys = refl
keep-append p (x ∷ xs) ys = elim (Bool-cases (p x)) [
  | inl e ↦ rw e (ap (λ t. x ∷ t) (keep-append p xs ys))
  | inr e ↦ rw e (keep-append p xs ys)
]

emit_word-append :
    (w : List Char) (xs ys : List (List Char)) → emit_word w (xs ++ ys) ≡ emit_word w xs ++ ys
emit_word-append [] xs ys = refl
emit_word-append (c ∷ cs) xs ys = refl

module _ (alphabet : Alphabet) where
  split_words-separated :
      (s : Char)
      → alphabet.is_space s ≡ true
      → (word xs ys : List Char)
      → split_words alphabet word (xs ++ s ∷ ys)
        ≡ split_words alphabet word xs ++ split_words alphabet [] ys
  split_words-separated s h word [] ys =
      rw h (emit_word-append word [] (split_words alphabet [] ys))
  split_words-separated s h word (c ∷ cs) ys = elim (Bool-cases (alphabet.is_space c)) [
    | inl e ↦
        rw (e, split_words-separated s h [] cs ys)
          (emit_word-append word (split_words alphabet [] cs) (split_words alphabet [] ys))
    | inr e ↦ rw e (split_words-separated s h (word ++ c ∷ []) cs ys)
  ]

  -- A character that is no letter and no digit separates the tokens before it from those behind it.
  pub tokenize-separated :
      alphabet.is_space alphabet.blank ≡ true
      → (c : Char) → alphabet.is_alnum c ≡ false
      → (xs ys : List Char)
      → tokenize alphabet (xs ++ c ∷ ys) ≡ tokenize alphabet xs ++ tokenize alphabet ys
  unfolding tokenize
  tokenize-separated blank c h xs ys =
      let f = normalized alphabet in
      rw
        (
          flat_map-append f xs (c ∷ ys),
          h,
          split_words-separated alphabet.blank blank [] (flat_map f xs) (flat_map f ys),
        )
        (keep-append is_nonempty (split_words alphabet [] (flat_map f xs))
          (split_words alphabet [] (flat_map f ys)))

  snoc_nonempty : (word : List Char) (c : Char) → is_nonempty (word ++ c ∷ []) ≡ true
  snoc_nonempty [] c = refl
  snoc_nonempty (d ∷ ds) c = refl
