-- ===== src/Repository.antt =====
-- src/aegis_common/repository.py: the functions on incidents that a session calls. The session's
-- table is the list of its rows; a raise leaves it as it was.
pub mod Laws
use aegis_project.Prelude.{
  ℕ, ◌+◌, String, Bool, true, not, ◌||◌, str_eq, take, Option, none, some, List, [], ◌∷◌, ◌==◌, leb,
  keep, find, sort_by, if◌then◌else◌,
}
use aegis_project.Schemas.{Severity, IncidentStatus, status_value}
use aegis_project.Store.{IncidentRow}
use aegis_project.Store.Lookup.{get_row, update_row}
use aegis_project.Detection.Topology.{member}
use aegis_project.Detection.Worker.{is_resolved}

abbrev pub id_of : IncidentRow → ℕ
id_of r = r.id

-- The fields of an `Incident` that its row takes.
pub record NewIncident : Type 0 where
  pub incident_id : ℕ
  pub status : IncidentStatus
  pub severity : Severity
  pub title : String
  pub services : List String
  pub fencing_token : Option ℕ

-- `create_incident`: the row, with the times that the table's defaults give it
unfoldable pub incident_row : ℕ → NewIncident → IncidentRow
incident_row now i = record {
  id = i.incident_id;
  status = i.status;
  severity = i.severity;
  title = i.title;
  services = i.services;
  fencing_token = i.fencing_token;
  version = 0;
  opened_at = now;
  updated_at = now;
  resolved_at = none;
}

unfoldable pub get_incident : ℕ → List IncidentRow → Option IncidentRow
unfolding get_row
get_incident id rows = get_row id_of id rows

-- What `update_status` returns or raises.
pub data Update : Type 0 where
  updated : IncidentRow → Update
  missing : Update
  conflict : Update

-- The row with its new status.
unfoldable pub with_status : ℕ → IncidentStatus → IncidentRow → IncidentRow
with_status now new_status r = record r {
  status = new_status;
  version = r.version + 1;
  updated_at = now;
  resolved_at = if is_resolved new_status then some now else r.resolved_at;
}

-- `update_status` on the row that was read under its lock.
unfoldable pub update_found :
    ℕ → IncidentStatus → ℕ → Option IncidentRow → List IncidentRow → Update × List IncidentRow
update_found now new_status expected_version none rows = (missing, rows)
update_found now new_status expected_version (some r) rows =
    if r.version == expected_version
    then (
      updated (with_status now new_status r),
      update_row id_of r.id (with_status now new_status) rows,
    )
    else (conflict, rows)

unfoldable pub update_status :
    ℕ → ℕ → IncidentStatus → ℕ → List IncidentRow → Update × List IncidentRow
unfolding update_found get_row
update_status now incident_id new_status expected_version rows =
    update_found now new_status expected_version (get_row id_of incident_id rows) rows

unfoldable pub find_open_incident_for_service : String → List IncidentRow → Option IncidentRow
find_open_incident_for_service service rows =
    find (λ (r : IncidentRow). member service r.services)
      (sort_by (λ (a b : IncidentRow). leb b.opened_at a.opened_at)
        (keep (λ (r : IncidentRow). not (is_resolved r.status)) rows))

-- `if status` and the comparison with the column
abbrev has_status : Option String → IncidentRow → Bool
has_status none r = true
has_status (some status) r = str_eq status "" || str_eq (status_value r.status) status

-- `list_incidents`
unfoldable pub list_incidents : Option String → ℕ → List IncidentRow → List IncidentRow
list_incidents status limit rows =
    take limit
      (sort_by (λ (a b : IncidentRow). leb b.opened_at a.opened_at) (keep (has_status status) rows))
