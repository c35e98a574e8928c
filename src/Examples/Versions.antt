-- ===== src/Examples/Versions.antt =====
-- The theorems on the status of an incident at concrete values.
use aegis_project.Prelude.{◌≡◌, refl, [], ◌∷◌, List}
use aegis_project.Schemas.{IncidentStatus}
use aegis_project.Store.{IncidentRow}
use aegis_project.Store.Lookup.{get_row}
use aegis_project.Repository.{updated, conflict, with_status, update_found, update_status}
use aegis_project.Repository.Laws.{update_status_once}
use aegis_project.Examples.Fixtures.{incident}

abbrev incidents : List IncidentRow
incidents = incident ∷ []

resolves :
    (update_status 50 3 IncidentStatus.resolved 1 incidents).0
    ≡ updated (with_status 50 IncidentStatus.resolved incident)
unfolding update_status update_found get_row
resolves = refl

update_status_once_example :
    let rows' = (update_status 50 3 IncidentStatus.resolved 1 incidents).1 in
    update_status 60 3 IncidentStatus.escalated 1 rows' ≡ (conflict, rows')
update_status_once_example =
    update_status_once 50 60 3 IncidentStatus.resolved IncidentStatus.escalated 1 incidents
      (with_status 50 IncidentStatus.resolved incident) resolves
