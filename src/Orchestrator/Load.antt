-- ===== src/Orchestrator/Load.antt =====
-- What `handle_opened` of src/aegis_services/orchestrator/worker.py reads from the database.
use aegis_project.Prelude.{
  ℕ, String, Bool, false, Option, none, some, List, [], ◌∷◌, map, keep, str_eq, ◌==◌, if◌then◌else◌,
}
use aegis_project.Store.{Env, Db, IncidentRow, SignalRow, ActionCatalogRow}
use aegis_project.Store.Lookup.{get_row}

abbrev pub belongs_to : ℕ → Option ℕ → Bool
belongs_to incident_id none = false
belongs_to incident_id (some id) = id == incident_id

module _ (env : Env) where
  -- `_load_incident`
  unfoldable pub load_incident : ℕ → Db env → Option IncidentRow × List SignalRow
  load_incident incident_id db = (
    get_row (λ (i : IncidentRow). i.id) incident_id db.incidents,
    keep (λ (s : SignalRow). belongs_to incident_id s.incident_id) db.signals,
  )

  -- `_risk_tier_map`: the pairs of the dictionary
  unfoldable pub risk_tier_map : Db env → List (String × String)
  risk_tier_map db = map (λ (r : ActionCatalogRow). (r.name, r.risk_tier)) db.catalog

-- `risk_tiers.get(action, "medium")`, on a catalog whose names are unique
unfoldable pub risk_tier_of : String → List (String × String) → String
risk_tier_of action [] = "medium"
risk_tier_of action ((name, tier) ∷ tiers) =
    if str_eq name action then tier else risk_tier_of action tiers
