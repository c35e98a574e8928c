-- ===== src/Bus/Keeps.antt =====
-- What a consumer of src/aegis_common/kafka.py keeps of the state that its handler changes.
use aegis_project.Prelude.{Bool, ◌≡◌, inl, inr, some, get_elem?, Option-cases, Bool-cases}
use aegis_project.Bus.{Consumer, Handler, handle_next, poll}

-- What each handled record keeps, a consumer keeps.
pub poll_keeps :
    {R S : Type 0} (handler : Handler R S) (P : S → Type 0) (commits : Bool) (c : Consumer R)
    (s : S)
    → ((r : R) → get_elem? c.log c.position ≡ some r → P (handler r s).1)
    → P s
    → P (poll handler commits (c, s)).1
unfolding poll handle_next
poll_keeps handler P commits c s next h = elim (Option-cases (get_elem? c.log c.position)) [
  | inl e ↦ rw e h
  | inr (r, e) ↦ elim (Bool-cases (handler r s).0) [
    | inl k ↦ rw (e, handle_next, k) (next r e)
    | inr k ↦ rw (e, handle_next, k) (next r e)
  ]
]
