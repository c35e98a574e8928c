-- ===== src/Embeddings/Laws.antt =====
-- What src/aegis_common/embeddings.py promises of its vectors, and which model it chooses.
use Prim.Native.Char.{Char}
use mathlib.Core.List.{Permᴰ}
use mathlib.Core.List.Permᴰ
use aegis_project.Prelude.{
  ℕ, zero, suc, ◌%◌, ◌<◌, ◌==◌, ◌≡◌, refl, ap, sym, ◌∙◌, true, false, Option, none, some, String,
  List, [], ◌∷◌, ◌++◌, map, length, All, arith, if◌then◌else◌,
}
use aegis_project.Json.{Fields}
use aegis_project.Texts.{chars}
use aegis_project.Embeddings.{
  Floats, Alphabet, replicate, tokenize, l2_normalize, bump, with_head, after, divide_all,
  count_token, count_tokens, embed_text, Vector, Embedder, hashing_embedder, ollama_embedder,
  after_probe, get_embedder,
}
use aegis_project.Embeddings.Tokens.{tokenize-separated}

length-replicate {ℓ} : {A : Type ℓ} (n : ℕ) (x : A) → length (replicate n x) ≡ n
length-replicate zero x = refl
length-replicate (suc n) x = omega (arith, length-replicate n x)

length-map {ℓ κ} :
    {A : Type ℓ} {B : Type κ} (f : A → B) (xs : List A) → length (map f xs) ≡ length xs
length-map f [] = refl
length-map f (x ∷ xs) = omega (arith, length-map f xs)

after_assoc {ℓ} :
    {A B C : Type ℓ} (o : Option A) (f : A → Option B) (g : B → Option C)
    → after (after o f) g ≡ after o (λ x. after (f x) g)
after_assoc none f g = refl
after_assoc (some x) f g = refl

module _ (floats : Floats) where
  -- An index within the vector does not raise.
  bump-typed :
      (i : ℕ) (v : List floats.Float)
      → i < length v
      → (w : List floats.Float) × (bump floats i v ≡ some w) × (length w ≡ length v)
  bump-typed i [] h = absurd (omega arith)
  bump-typed zero (x ∷ xs) h = (_, refl, refl)
  bump-typed (suc i) (x ∷ xs) h =
      let (w, e, l) = bump-typed i xs (omega arith) in (x ∷ w, rw e refl, omega (arith, l))

  bump-with_head :
      (x : floats.Float) (o : Option (List floats.Float)) (j : ℕ)
      → after (with_head x o) (bump floats (suc j)) ≡ with_head x (after o (bump floats j))
  bump-with_head x none j = refl
  bump-with_head x (some v) j = refl

  zero-after :
      (x : floats.Float) (o : Option (List floats.Float))
      → after (with_head x o) (bump floats zero) ≡ with_head (floats.add_one x) o
  zero-after x none = refl
  zero-after x (some v) = refl

  -- Counts at two places do not depend on their order, whatever `+ 1.0` does.
  bump-bump :
      (i j : ℕ) (v : List floats.Float)
      → after (bump floats i v) (bump floats j) ≡ after (bump floats j v) (bump floats i)
  bump-bump i j [] = refl
  bump-bump zero zero (x ∷ xs) = refl
  bump-bump zero (suc j) (x ∷ xs) = sym (zero-after x (bump floats j xs))
  bump-bump (suc i) zero (x ∷ xs) = zero-after x (bump floats i xs)
  bump-bump (suc i) (suc j) (x ∷ xs) =
      bump-with_head x (bump floats i xs) j
      ∙ ap (with_head x) (bump-bump i j xs)
      ∙ sym (bump-with_head x (bump floats j xs) i)

  module _ (alphabet : Alphabet) (dim : ℕ) where
    count_token-swap :
        (a b : List Char) (v : List floats.Float)
        → after (count_token floats alphabet dim a v) (count_token floats alphabet dim b)
          ≡ after (count_token floats alphabet dim b v) (count_token floats alphabet dim a)
    unfolding count_token
    count_token-swap a b v =
        let i = alphabet.md5 a % dim in
        let j = alphabet.md5 b % dim in
        elim (dim == 0)
          as (λ z.
            after (if z then none else bump floats i v) (λ w. if z then none else bump floats j w)
            ≡ after (if z then none else bump floats j v)
                (λ w. if z then none else bump floats i w)) [
                  | true ↦ refl
                  | false ↦ bump-bump i j v
                ]

    count_tokens-perm :
        {ts us : List (List Char)}
        → Permᴰ ts us
        → (v : List floats.Float)
        → count_tokens floats alphabet dim ts v ≡ count_tokens floats alphabet dim us v
    unfolding count_tokens
    count_tokens-perm Permᴰ.nil v = refl
    count_tokens-perm (Permᴰ.cons {b = b} e p) v =
        rw e (ap (after (count_token floats alphabet dim b v)) (λ i. λ w. count_tokens-perm p w i))
    count_tokens-perm (Permᴰ.swap {a' = a} {b' = b} {l = ts} e f) v =
        rw (e, f)
          (sym (
              after_assoc (count_token floats alphabet dim b v) _
                (count_tokens floats alphabet dim ts))
            ∙ ap (λ o. after o (count_tokens floats alphabet dim ts)) (count_token-swap b a v)
            ∙ after_assoc (count_token floats alphabet dim a v) _
                (count_tokens floats alphabet dim ts))
    count_tokens-perm (Permᴰ.trans p q) v = count_tokens-perm p v ∙ count_tokens-perm q v

    -- The hashing model sees a text as the bag of its tokens: texts with the same tokens in
    -- another order get the same vector.
    pub embed_text_unordered :
        (a b : String)
        → Permᴰ (tokenize alphabet (chars a)) (tokenize alphabet (chars b))
        → embed_text floats alphabet dim a ≡ embed_text floats alphabet dim b
    unfolding embed_text
    embed_text_unordered a b p =
        ap (λ o. after o (l2_normalize floats))
          (count_tokens-perm p (replicate dim floats.zero_float))

    -- Two parts of a text that a separator joins can change places, and the separator can be
    -- another one, when a blank is a space to `split` and the separators are neither letter nor
    -- digit: the vector is the same.
    pub embed_text_swapped :
        alphabet.is_space alphabet.blank ≡ true
        → (a b : String) → (xs ys : List Char) (c d : Char) → chars a ≡ xs ++ c ∷ ys
        → chars b ≡ ys ++ d ∷ xs
        → alphabet.is_alnum c ≡ false
        → alphabet.is_alnum d ≡ false
        → embed_text floats alphabet dim a ≡ embed_text floats alphabet dim b
    embed_text_swapped blank a b xs ys c d ea eb hc hd = embed_text_unordered a b (
        rw
          (
            ea,
            eb,
            tokenize-separated alphabet blank c hc xs ys,
            tokenize-separated alphabet blank d hd ys xs,
          )
          (Permᴰ.append_comm (tokenize alphabet xs) (tokenize alphabet ys)))

    -- The bucket of a token is an index of the vector.
    count_token-typed :
        (0 < dim)
        → (t : List Char) (v : List floats.Float) → length v ≡ dim
        → (w : List floats.Float) × (count_token floats alphabet dim t v ≡ some w)
          × (length w ≡ dim)
    unfolding count_token
    count_token-typed h t v l =
        let (w, e, k) = bump-typed (alphabet.md5 t % dim) v (omega arith) in
        (w, ground (arith, e), k ∙ l)

    count_tokens-typed :
        (0 < dim)
        → (ts : List (List Char)) (v : List floats.Float) → length v ≡ dim
        → (w : List floats.Float) × (count_tokens floats alphabet dim ts v ≡ some w)
          × (length w ≡ dim)
    unfolding count_tokens
    count_tokens-typed h [] v l = (v, refl, l)
    count_tokens-typed h (t ∷ ts) v l =
        let (u, eu, lu) = count_token-typed h t v l in
        let (w, e, k) = count_tokens-typed h ts u lu in (w, rw eu e, k)

    divide_all-typed :
        (n : floats.Float)
        → floats.is_zero n ≡ false
        → (v : List floats.Float)
        → (w : List floats.Float) × (divide_all floats n v ≡ some w) × (length w ≡ length v)
    divide_all-typed n h [] = ([], refl, refl)
    divide_all-typed n h (x ∷ xs) =
        let (w, e, l) = divide_all-typed n h xs in
        (floats.div x n ∷ w, rw (h, e) refl, omega (arith, l))

    -- The divisor of the normalisation is not zero, since `or` replaces a zero.
    l2_normalize-typed :
        floats.is_zero floats.one ≡ false
        → (v : List floats.Float)
        → (w : List floats.Float) × (l2_normalize floats v ≡ some w) × (length w ≡ length v)
    unfolding l2_normalize
    l2_normalize-typed h1 v = divide_all-typed _ (ground arith) v

    embed_text-typed :
        (0 < dim)
        → floats.is_zero floats.one ≡ false
        → (text : String)
        → (w : List floats.Float) × (embed_text floats alphabet dim text ≡ some w)
          × (length w ≡ dim)
    unfolding embed_text
    embed_text-typed h h1 text =
        let (w, e, l) =
          count_tokens-typed h (tokenize alphabet (chars text)) (replicate dim floats.zero_float)
            (length-replicate dim floats.zero_float) in
        let (u, eu, k) = l2_normalize-typed h1 w in (u, rw e eu, k ∙ l)

    -- A vector of numbers that has the length.
    abbrev pub HasDim : Vector floats → Type 0
    HasDim (Vector.numbers w) = length w ≡ dim
    HasDim (Vector.answered v) = ⊥

    -- With a dimension above 0, and where 1.0 is not zero, the hashing model embeds every list of
    -- texts and never raises, neither for an index out of range nor for a division by zero: it
    -- gives as many vectors, and each has exactly that dimension.
    pub hashing_embedder-HasDim :
        (0 < dim)
        → floats.is_zero floats.one ≡ false
        → (texts : List String)
        → (vs : List (Vector floats)) × ((hashing_embedder floats alphabet dim).embed texts
            ≡ some vs)
          × (length vs ≡ length texts)
          × All HasDim vs
    unfolding hashing_embedder
    hashing_embedder-HasDim h h1 [] = ([], refl, refl, tt)
    hashing_embedder-HasDim h h1 (t ∷ ts) =
        let (w, e, l) = embed_text-typed h h1 t in
        let (vs, es, k, d) = hashing_embedder-HasDim h h1 ts in
        (Vector.numbers w ∷ vs, rw (e, es) refl, omega (arith, k), (l, d))

module _ (floats : Floats) (alphabet : Alphabet) where
  -- The model embeds the text of the probe.
  abbrev pub IsReady : Embedder floats → Type 0
  IsReady e = (vs : List (Vector floats)) × (e.embed ("healthcheck" ∷ []) ≡ some vs)

  after_probe-IsReady :
      (o : Option (List (Vector floats))) (ollama fallback : Embedder floats)
      → ollama.embed ("healthcheck" ∷ []) ≡ o
      → IsReady fallback
      → IsReady (after_probe floats o ollama fallback)
  after_probe-IsReady (some vs) ollama fallback e h = (vs, e)
  after_probe-IsReady none ollama fallback e h = h

  -- Where 1.0 is not zero: when the local model cannot be loaded, the chosen model embeds the text of the probe,
  -- whatever the server answers or does not answer.
  pub get_embedder-IsReady :
      floats.is_zero floats.one ≡ false
      → (post : Fields → Option Fields) (name : String)
      → IsReady (get_embedder floats none post name alphabet)
  unfolding get_embedder
  get_embedder-IsReady h1 post name =
      let (vs, e, k, d) =
        hashing_embedder-HasDim floats alphabet 384 (omega arith) h1 ("healthcheck" ∷ []) in
      after_probe-IsReady _ (ollama_embedder floats post name)
        (hashing_embedder floats alphabet 384) refl (vs, e)
