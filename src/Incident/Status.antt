-- ===== src/Incident/Status.antt =====
-- packages/domain/enums.py: an incident's status, and the statuses in which no alert joins it.
use incident_triage.Base.{List, [], ◌∷◌, Eq, discrete_beq, discrete_beq_iff}

pub data IncidentStatus : Type 0 where
  triaging investigating rca_ready awaiting_approval : IncidentStatus
  remediation_in_progress verifying verification_failed resolved : IncidentStatus
  escalated suppressed cancelled closed : IncidentStatus

abbrev pub IncidentStatus-discrete : Discrete IncidentStatus
IncidentStatus-discrete = hlevel

instance abbrev pub incident_status_eq : Eq IncidentStatus
incident_status_eq = record {
  beq = discrete_beq IncidentStatus-discrete;
  beq_iff = discrete_beq_iff IncidentStatus-discrete;
}

abbrev pub closed_incident_statuses : List IncidentStatus
closed_incident_statuses = closed ∷ cancelled ∷ suppressed ∷ resolved ∷ []
