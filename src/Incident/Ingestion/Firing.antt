-- ===== src/Incident/Ingestion/Firing.antt =====
-- packages/incident/service.py and packages/incident/repository.py: the candidates that an alert that
-- fires may join, the incident that is opened for it, and its link.
use incident_triage.Base.{
  ℕ, String, Bool, true, false, ◌&&◌, Option, none, some, List, [], ◌∷◌, ◌++◌, ◌==◌, nat_eq,
  string_eq, option_eq, if◌then◌else◌, length, filter, find, leb, map,
}
use Prim.Native.Nat.{max}
use incident_triage.Incident.Status.{IncidentStatus, triaging}
use incident_triage.Correlation.Rules.{CorrelationCandidate, Signal}
use incident_triage.Incident.Ingestion.{
  AlertReceivedCommand, AlertRow, StoredIncident, alert_received, alert_correlated,
  incident_created, Db, emit, is_open, put_alert, belongs_to, Processed, finalize,
}

-- The values of the enumeration.
abbrev pub status_value : IncidentStatus → String
status_value IncidentStatus.triaging = "TRIAGING"
status_value IncidentStatus.investigating = "INVESTIGATING"
status_value IncidentStatus.rca_ready = "RCA_READY"
status_value IncidentStatus.awaiting_approval = "AWAITING_APPROVAL"
status_value IncidentStatus.remediation_in_progress = "REMEDIATION_IN_PROGRESS"
status_value IncidentStatus.verifying = "VERIFYING"
status_value IncidentStatus.verification_failed = "VERIFICATION_FAILED"
status_value IncidentStatus.resolved = "RESOLVED"
status_value IncidentStatus.escalated = "ESCALATED"
status_value IncidentStatus.suppressed = "SUPPRESSED"
status_value IncidentStatus.cancelled = "CANCELLED"
status_value IncidentStatus.closed = "CLOSED"

-- The time of the newest of an incident's alerts.
abbrev pub latest : List AlertRow → ℕ
latest [] = 0
latest (a ∷ alerts) = max a.received_at (latest alerts)

abbrev pub candidate : StoredIncident → AlertRow → CorrelationCandidate
candidate i a = record {
  incident_id = i.row.id;
  correlation_key = i.correlation_key;
  status = status_value i.row.status;
  service = i.row.service;
  environment = i.row.environment;
  most_recent_alert_received_at = a.received_at;
  most_recent_alert_labels = a.labels;
  most_recent_alert_fingerprint = a.fingerprint;
}

-- The rows that the query joins to one incident.
abbrev pub candidates_of :
    String → String → ℕ → List AlertRow → StoredIncident → List CorrelationCandidate
candidates_of service environment cutoff alerts i =
    let own = filter (belongs_to i.row.id) alerts in
    let newest = latest own in
    if (i.row.service == service)
      && ((i.row.environment == environment) && (is_open i && leb cutoff newest))
    then map (candidate i) (filter (λ a. a.received_at == newest) own)
    else []

unfoldable pub find_open_incident_candidates :
    String → String → ℕ → List AlertRow → List StoredIncident → List CorrelationCandidate
find_open_incident_candidates service environment cutoff alerts [] = []
find_open_incident_candidates service environment cutoff alerts (i ∷ incidents) =
    candidates_of service environment cutoff alerts i
    ++ find_open_incident_candidates service environment cutoff alerts incidents

abbrev pub open_new_incident :
    AlertReceivedCommand → String → ℕ → List StoredIncident → StoredIncident
open_new_incident command key received incidents = record {
  row = record {
    id = length incidents;
    status = triaging;
    severity = command.severity;
    service = command.service;
    environment = command.environment;
    attempt_count = 0;
    version = 0;
    updated_at = received;
  };
  correlation_key = key;
  closed_at = none;
}

-- `_select_open_incident`
abbrev pub select_open_incident : String → List StoredIncident → Option StoredIncident
select_open_incident key = find (λ i. (i.correlation_key == key) && is_open i)

-- `get_or_create_open_incident`, which finds what a concurrent insert would have met; `true` if it
-- was created.
abbrev pub adopt_or_open :
    AlertReceivedCommand → String → ℕ → Option StoredIncident → Db → Db × (StoredIncident × Bool)
adopt_or_open command key received (some i) db = (db, (i, false))
adopt_or_open command key received none db =
    let i = open_new_incident command key received db.incidents in
    (record db { incidents = i ∷ db.incidents }, (i, true))

unfoldable pub get_or_create_open_incident :
    AlertReceivedCommand → String → ℕ → Db → Db × (StoredIncident × Bool)
get_or_create_open_incident command key received db =
    adopt_or_open command key received (select_open_incident key db.incidents) db

-- `link_alert_to_incident` with the events and the result.
unfoldable pub link_alert :
    AlertReceivedCommand → AlertRow → StoredIncident → Bool → List Signal → Db → Processed
link_alert command alert incident created signals db =
    let linked = record db {
      alerts = put_alert (record alert { incident_id = some incident.row.id }) db.alerts;
    } in
    let received = emit (alert_received alert.id incident.row.id) linked in
    let told =
      if created
      then emit (incident_created incident.row.id signals) received
      else emit (alert_correlated alert.id incident.row.id signals) received in
    finalize command
      (record {
        alert_id = alert.id;
        incident_id = some incident.row.id;
        incident_created = created;
        incident_status = some incident.row.status;
      })
      told

-- `touch_incident_updated_at`
abbrev pub touch : ℕ → StoredIncident → StoredIncident
touch now i = record i { row = record (i.row) { updated_at = now } }
