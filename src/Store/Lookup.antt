-- ===== src/Store/Lookup.antt =====
-- `session.get` by primary key, and the write of the row that it found.
use aegis_project.Prelude.{
  inl, inr, Bool-cases, ℕ, ◌≡◌, Option, none, some, List, [], ◌∷◌, arith, ◌==◌, if◌then◌else◌,
}

-- A table whose rows have a number for a key.
module _ {A : Type 0} (key : A → ℕ) where
  unfoldable pub get_row : ℕ → List A → Option A
  get_row id [] = none
  get_row id (r ∷ rs) = if key r == id then some r else get_row id rs

  -- The rows with the one of this key changed.
  unfoldable pub update_row : ℕ → (A → A) → List A → List A
  update_row id f [] = []
  update_row id f (r ∷ rs) = if key r == id then f r ∷ rs else r ∷ update_row id f rs

abbrev pub map_option : {A B : Type 0} → (A → B) → Option A → Option B
map_option f none = none
map_option f (some a) = some (f a)

module _ {A : Type 0} (key : A → ℕ) where
  -- A change that keeps the key is seen at that key, and at no other.
  pub get_row-update_row :
      (id j : ℕ) (f : A → A) (rows : List A)
      → ((r : A) → key (f r) ≡ key r)
      → get_row key j (update_row key id f rows)
        ≡ (if id == j then map_option f (get_row key j rows) else get_row key j rows)
  unfolding get_row update_row
  get_row-update_row id j f [] keeps = ground arith
  get_row-update_row id j f (r ∷ rs) keeps =
      ground (arith, keeps r, get_row-update_row id j f rs keeps)

  pub get_row-key : (id : ℕ) (rows : List A) {r : A} → get_row key id rows ≡ some r → key r ≡ id
  unfolding get_row
  get_row-key id [] h = cc
  get_row-key id (x ∷ rs) {r} h = elim (Bool-cases (key x == id)) [
    | inl e ↦ ground arith
    | inr e ↦ get_row-key id rs (rw e at h)
  ]
