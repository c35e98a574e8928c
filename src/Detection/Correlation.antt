-- ===== src/Detection/Correlation.antt =====
-- src/aegis_services/detection/correlation.py. Times and the window are microseconds, and
-- `now - last_updated <= window` is written without the difference.
use aegis_project.Prelude.{
  ℕ, ◌+◌, ◌*◌, String, Bool, ◌&&◌, Option, none, some, List, leb, find, sort_by, if◌then◌else◌,
}
use aegis_project.Schemas.{Severity, Signal}
use aegis_project.Detection.Topology.{Adjacency, related}

-- `_SEV_RANK`
abbrev pub sev_rank : Severity → ℕ
sev_rank Severity.sev1 = 0
sev_rank Severity.sev2 = 1
sev_rank Severity.sev3 = 2
sev_rank Severity.sev4 = 3
sev_rank Severity.unknown = 4

unfoldable pub more_severe : Severity → Severity → Severity
more_severe a b = if leb (sev_rank a) (sev_rank b) then a else b

pub record OpenIncidentView : Type 0 where
  pub incident_id : ℕ
  pub services : List String
  pub severity : Severity
  pub last_updated : ℕ

pub data CorrelationDecision : Type 0 where
  attach : ℕ → Severity → CorrelationDecision
  open_new : Severity → CorrelationDecision

-- The test in the loop.
unfoldable pub eligible : Signal → Adjacency → ℕ → ℕ → OpenIncidentView → Bool
eligible signal topology now window_seconds v =
    leb now (v.last_updated + window_seconds * 1000000)
    && related topology signal.service v.services

abbrev pub newer_first : OpenIncidentView → OpenIncidentView → Bool
newer_first a b = leb b.last_updated a.last_updated

abbrev pub decision_on : Signal → Option OpenIncidentView → CorrelationDecision
unfolding more_severe
decision_on signal none = CorrelationDecision.open_new signal.severity
decision_on signal (some v) =
    CorrelationDecision.attach v.incident_id (more_severe v.severity signal.severity)

unfoldable pub correlate : Signal → List OpenIncidentView → Adjacency → ℕ → ℕ → CorrelationDecision
unfolding eligible decision_on
correlate signal open_incidents topology now window_seconds =
    decision_on signal
      (find (eligible signal topology now window_seconds) (sort_by newer_first open_incidents))
