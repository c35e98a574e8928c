-- ===== src/Repository/Laws.antt =====
-- The optimistic lock of `update_status` in src/aegis_common/repository.py.
use aegis_project.Prelude.{
  ℕ, ◌≡◌, ◌≢◌, ◌⊎◌, inl, inr, refl, true, some, none, List, arith, Option-cases, ◌==◌,
  if◌then◌else◌, Bool-cases, ==_iff,
}
use aegis_project.Schemas.{IncidentStatus}
use aegis_project.Store.{IncidentRow}
use aegis_project.Store.Lookup.{get_row, get_row-update_row, get_row-key, update_row, map_option}
use aegis_project.Repository.{
  id_of, updated, missing, conflict, with_status, update_found, update_status,
}

-- The table after a change of an incident's status, read at any key.
after_status :
    (now : ℕ) (st : IncidentStatus) (r : IncidentRow) (rows : List IncidentRow)
    → (j : ℕ)
    → get_row id_of j (update_row id_of r.id (with_status now st) rows) ≡ (
        if r.id == j
        then map_option (with_status now st) (get_row id_of j rows)
        else get_row id_of j rows)
after_status now st r rows j =
    get_row-update_row id_of r.id j (with_status now st) rows (λ _. unfold with_status in refl)

-- A status is set only by a caller that knows the incident's version: with the version of the
-- row, the row has the new status at the next version and every other incident is as it was; with
-- any other version the call is a conflict, and a missing incident is reported, and in both cases
-- the table is as it was.
pub update_status_exact :
    (now id : ℕ) (st : IncidentStatus) (v : ℕ) (rows : List IncidentRow)
    → (get_row id_of id rows ≡ none → update_status now id st v rows ≡ (missing, rows))
      × ((r : IncidentRow)
          → get_row id_of id rows ≡ some r
          → r.version ≢ v
          → update_status now id st v rows ≡ (conflict, rows))
      × ((r : IncidentRow)
          → get_row id_of id rows ≡ some r
          → r.version ≡ v
          → let (u, rows') = update_status now id st v rows in
            (u ≡ updated (with_status now st r))
            × (get_row id_of id rows' ≡ some (with_status now st r))
            × ((j : ℕ) → j ≢ id → get_row id_of j rows' ≡ get_row id_of j rows))
unfolding update_status update_found
update_status_exact now id st v rows = (
  λ e. rw e,
  λ r e ne. ground arith,
  λ r e same.
      let key : r.id ≡ id = get_row-key id_of id rows e in
      let matches : (r.version == v) ≡ true = (==_iff r.version v).1 same in
      rw (e, matches)
        (
          refl,
          ground (arith, after_status now st r rows id),
          λ j ne. ground (arith, after_status now st r rows j),
        ),
)

version_cases : (m n : ℕ) → (m ≡ n) ⊎ (m ≢ n)
version_cases m n = elim (Bool-cases (m == n)) [
  | inl e ↦ inl ((==_iff m n).0 e)
  | inr e ↦ inr (λ p. ground arith)
]

-- Of two callers that read the same version of an incident, only the first sets the status: when
-- its call has returned a row, the other's call with that version is a conflict and leaves the
-- table as the first one left it, whatever statuses and times they have.
pub update_status_once :
    (now later id : ℕ) (st other : IncidentStatus) (v : ℕ) (rows : List IncidentRow)
    (r : IncidentRow)
    → (update_status now id st v rows).0 ≡ updated r
    → let rows' = (update_status now id st v rows).1 in
      update_status later id other v rows' ≡ (conflict, rows')
update_status_once now later id st other v rows r h = elim (Option-cases (get_row id_of id rows)) [
  | inl e ↦ absurd (cc ((update_status_exact now id st v rows).0 e, h))
  | inr (x, e) ↦ elim (version_cases x.version v) [
    | inr ne ↦ absurd (cc ((update_status_exact now id st v rows).1 x e ne, h))
    | inl same ↦
        let (u, found, rest) = (update_status_exact now id st v rows).2 x e same in
        (update_status_exact later id other v (update_status now id st v rows).1).1
          (with_status now st x) found (unfold with_status in λ q. absurd (omega arith))
  ]
]
