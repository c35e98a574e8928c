-- ===== src/Audit.antt =====
-- src/aegis_common/audit.py: the hash-chained audit log. The table is the list of its rows in
-- ascending `seq`, so a query in that order reads the list and the latest row is its last.
pub mod Laws
use aegis_project.Prelude.{
  ℕ, suc, ◌+◌, String, Bool, true, false, Option, none, some, List, [], ◌∷◌, ◌++◌, ◌==◌, not, ◌||◌,
  if◌then◌else◌,
}
use aegis_project.Json.{Fields}

-- `orjson.dumps` with sorted keys, and `sha256` of the text `seq|prev_hash|canonical`. The frame
-- is unambiguous, since a number and a hash hold no bar.
pub record Hasher : Type 1 where
  pub Bytes : Type 0
  pub Hash : Type 0
  pub canonical : Fields → Bytes
  pub sha256 : ℕ → Hash → Bytes → Hash
  pub genesis_hash : Hash
  pub Hash-discrete : Discrete Hash

abbrev pub differs {ℓ} : {A : Type ℓ} → Discrete A → A → A → Bool
differs eq a b = elim (eq a b) [ yes p ↦ false | no p ↦ true ]

module _ (h : Hasher) where
  pub record AuditRow : Type 0 where
    pub seq : ℕ
    pub incident_id : Option ℕ
    pub actor : String
    pub action : String
    pub payload : Fields
    pub trace_id : Option String
    pub prev_hash : h.Hash
    pub hash : h.Hash

-- The columns that the caller of `append_audit` gives.
pub record Entry : Type 0 where
  pub actor : String
  pub action : String
  pub payload : Fields
  pub incident_id : Option ℕ
  pub trace_id : Option String

module _ (h : Hasher) where
  -- `_compute_hash`
  unfoldable pub compute_hash : ℕ → h.Hash → Fields → h.Hash
  compute_hash seq prev_hash payload = h.sha256 seq prev_hash (h.canonical payload)

  -- `order_by(AuditRow.seq.desc()).limit(1)`
  unfoldable pub last_row : List (AuditRow h) → Option (AuditRow h)
  last_row [] = none
  last_row (r ∷ rs) = elim (last_row rs) [ none ↦ some r | some l ↦ some l ]

  -- The row that comes after the given latest one.
  unfoldable pub next_row : Option (AuditRow h) → Entry → AuditRow h
  unfolding compute_hash
  next_row last e =
      let prev_hash : h.Hash = elim last [ none ↦ h.genesis_hash | some l ↦ l.hash ] in
      let seq : ℕ = elim last [ none ↦ 1 | some l ↦ l.seq + 1 ] in
      record {
        seq = seq;
        incident_id = e.incident_id;
        actor = e.actor;
        action = e.action;
        payload = e.payload;
        trace_id = e.trace_id;
        prev_hash = prev_hash;
        hash = compute_hash seq prev_hash e.payload;
      }

  -- `append_audit`: the rows afterwards
  unfoldable pub append_audit : Entry → List (AuditRow h) → List (AuditRow h)
  unfolding next_row last_row
  append_audit e rows = rows ++ next_row (last_row rows) e ∷ []

  -- The loop of `verify_chain`, from the hash that the next row must carry on from.
  unfoldable pub verify_from : h.Hash → List (AuditRow h) → Bool
  unfolding compute_hash
  verify_from prev_hash [] = true
  verify_from prev_hash (row ∷ rows) =
      let rest = verify_from row.hash rows in
      if differs h.Hash-discrete (compute_hash row.seq prev_hash row.payload) row.hash
        || differs h.Hash-discrete row.prev_hash prev_hash
      then false
      else rest

  unfoldable pub verify_chain : List (AuditRow h) → Bool
  unfolding verify_from
  verify_chain rows = verify_from h.genesis_hash rows
