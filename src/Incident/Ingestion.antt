-- ===== src/Incident/Ingestion.antt =====
-- packages/incident/service.py and packages/incident/repository.py: `handle_alert_received`. The
-- database is read in the order of its lists, the newest row first, where a query leaves the
-- order open. A new row's identifier is the number of rows before it. Severities and sources are
-- texts; annotations and raw payloads are left out.
pub mod Firing
pub mod Ledger
pub mod Replay
pub mod Numbering
pub mod Triage
pub mod Ending
pub mod Keeping
pub mod Tests
use incident_triage.Base.{
  ℕ, ◌+◌, ◌*◌, ◌/◌, String, Bool, true, false, not, ◌&&◌, Option, none, some, List, [], ◌∷◌, ◌++◌,
  ◌==◌, nat_eq, string_eq, option_eq, if◌then◌else◌, length, filter, find, lookup, contains, ltb,
  leb, map, is_some,
}
use Prim.Native.Nat.{max}
use incident_triage.Errors.{Result, ok, err, ◌>>=◌, concurrent_modification, unexpected}
use incident_triage.Floats.{Floats}
use incident_triage.Incident.Status.{
  IncidentStatus, incident_status_eq, triaging, cancelled, closed_incident_statuses,
}
use incident_triage.Incident.Row.{IncidentRow, transition_incident_status}
use incident_triage.Correlation.Rules.{Labels, NewAlertContext, CorrelationCandidate, Signal}
use incident_triage.Correlation.Engine.{
  correlate, new_incident, CorrelationDecision, CorrelationEngine, decide,
  candidate_lookback_cutoff,
}

pub data AlertStatus : Type 0 where
  firing resolved : AlertStatus

abbrev pub is_firing : AlertStatus → Bool
is_firing firing = true
is_firing resolved = false

pub record AlertReceivedCommand : Type 0 where
  pub idempotency_key : String
  pub source : String
  pub external_id : Option String
  pub labels : Labels
  -- the labels that a command must have
  pub service : String
  pub environment : String
  pub severity : String
  pub status : AlertStatus

pub record AlertReceivedResult : Type 0 where
  pub alert_id : ℕ
  pub incident_id : Option ℕ
  pub incident_created : Bool
  pub incident_status : Option IncidentStatus

pub record AlertRow : Type 0 where
  pub id : ℕ
  pub external_id : Option String
  pub source : String
  pub fingerprint : String
  pub labels : Labels
  pub status : AlertStatus
  pub incident_id : Option ℕ
  pub received_at : ℕ
  pub resolved_at : Option ℕ

-- An incident with the columns that only its creation and its end write.
pub record StoredIncident : Type 0 where
  pub row : IncidentRow
  pub correlation_key : String
  pub closed_at : Option ℕ

pub data Event : Type 0 where
  alert_received : (alert_id incident_id : ℕ) → Event
  alert_correlated : (alert_id incident_id : ℕ) → List Signal → Event
  incident_created : (incident_id : ℕ) → List Signal → Event
  alert_resolved : (alert_id incident_id firing_alerts_remaining : ℕ) → Event
  incident_status_changed : (incident_id : ℕ) → (from_status to_status : IncidentStatus) → ℕ → Event

pub record Db : Type 0 where
  pub alerts : List AlertRow
  pub incidents : List StoredIncident
  pub ledger : List (String × AlertReceivedResult)
  pub outbox : List Event

abbrev pub emit : Event → Db → Db
emit e db = record db { outbox = e ∷ db.outbox }

abbrev pub is_open : StoredIncident → Bool
is_open i = not (contains closed_incident_statuses i.row.status)

-- `session.get(IncidentRow, id)`
abbrev pub get_incident : ℕ → List StoredIncident → Option StoredIncident
get_incident id = find (λ i. i.row.id == id)

-- The row that a write changes; the row of an alert is the first with its identifier.
abbrev pub put_incident : StoredIncident → List StoredIncident → List StoredIncident
put_incident i [] = []
put_incident i (j ∷ incidents) =
    let rest = put_incident i incidents in if j.row.id == i.row.id then i ∷ incidents else j ∷ rest

abbrev pub put_alert : AlertRow → List AlertRow → List AlertRow
put_alert a [] = []
put_alert a (b ∷ alerts) =
    let rest = put_alert a alerts in if b.id == a.id then a ∷ alerts else b ∷ rest

abbrev pub belongs_to : ℕ → AlertRow → Bool
belongs_to id a = a.incident_id == some id

-- `count_firing_alerts`
unfoldable pub count_firing_alerts : ℕ → List AlertRow → ℕ
count_firing_alerts id alerts = length (filter (λ a. belongs_to id a && is_firing a.status) alerts)

abbrev pub has_external_id : String → String → AlertRow → Bool
has_external_id source external_id a = (a.source == source) && (a.external_id == some external_id)

abbrev pub new_alert : AlertReceivedCommand → String → ℕ → Option ℕ → List AlertRow → AlertRow
new_alert command fingerprint received resolved_at alerts = record {
  id = length alerts;
  external_id = command.external_id;
  source = command.source;
  fingerprint = fingerprint;
  labels = command.labels;
  status = command.status;
  incident_id = none;
  received_at = received;
  resolved_at = resolved_at;
}

-- `insert_alert_or_get_existing` finds a row only by an external identifier.
abbrev pub existing_alert : AlertReceivedCommand → List AlertRow → Option AlertRow
existing_alert command alerts = elim command.external_id [
  | none ↦ none
  | some e ↦ find (has_external_id command.source e) alerts
]

-- A firing alert of an open incident, for sources that do not identify their alerts.
abbrev pub has_fingerprint : String → List StoredIncident → AlertRow → Bool
has_fingerprint fingerprint incidents a =
    (a.fingerprint == fingerprint)
    && (is_firing a.status && elim a.incident_id [
      | none ↦ false
      | some id ↦ elim (get_incident id incidents) [ none ↦ false | some i ↦ is_open i ]
    ])

-- `order_by(received_at.desc()).limit(1)`; of alerts that were received at once, the first.
abbrev pub later : AlertRow → Option AlertRow → Option AlertRow
later a none = some a
later a (some b) = if ltb a.received_at b.received_at then some b else some a

abbrev pub newest : (AlertRow → Bool) → List AlertRow → Option AlertRow
newest p [] = none
newest p (a ∷ alerts) = let rest = newest p alerts in if p a then later a rest else rest

-- What a notification of a resolution refers to.
abbrev pub meant :
    Option String → String → String → List StoredIncident → List AlertRow → Option AlertRow
meant none source fingerprint incidents alerts =
    newest (has_fingerprint fingerprint incidents) alerts
meant (some e) source fingerprint incidents alerts = find (has_external_id source e) alerts

unfoldable pub find_alert_to_resolve : AlertReceivedCommand → String → Db → Option AlertRow
find_alert_to_resolve command fingerprint db =
    meant command.external_id command.source fingerprint db.incidents db.alerts

-- `_incident_status`
abbrev pub status_of : Option ℕ → List StoredIncident → Option IncidentStatus
status_of none incidents = none
status_of (some id) incidents = elim (get_incident id incidents) [
  | none ↦ none
  | some i ↦ some i.row.status
]

-- `_finalize`; `none` when a concurrent command of the same key won.
abbrev pub Processed : Type 0
Processed = Result (Option (Db × AlertReceivedResult))

unfoldable pub finalize : AlertReceivedCommand → AlertReceivedResult → Db → Processed
finalize command result db =
    if is_some (lookup command.idempotency_key db.ledger)
    then ok none
    else ok (some (record db { ledger = (command.idempotency_key, result) ∷ db.ledger }, result))

-- `_finish_resolution`, and the answer on an alert that was there before.
unfoldable pub finish : AlertReceivedCommand → AlertRow → Db → Processed
finish command alert db =
    finalize command
      (record {
        alert_id = alert.id;
        incident_id = alert.incident_id;
        incident_created = false;
        incident_status = status_of alert.incident_id db.incidents;
      })
      db

-- The end of an incident none of whose alerts fires any more; `concurrent` is what others have made
-- of its row since it was read.
unfoldable pub settle_incident :
    (IncidentRow → IncidentRow) → ℕ → StoredIncident → ℕ → Db → Result Db
settle_incident concurrent now incident remaining db =
    if (remaining == 0) && (incident.row.status == triaging)
    then elim (transition_incident_status (concurrent incident.row) incident.row cancelled now) [
      | none ↦ err concurrent_modification
      | some row ↦ ok (
          emit (incident_status_changed row.id incident.row.status row.status row.version)
            (record db {
              incidents =
                  put_incident (record incident { row = row; closed_at = some now }) db.incidents;
            }))
    ]
    else ok db

abbrev pub ended : ℕ → AlertRow → AlertRow
ended now alert = record alert { status = resolved; resolved_at = some now }

-- The alert is marked as resolved, and its incident ends if it must.
unfoldable pub end_alert :
    (IncidentRow → IncidentRow) → ℕ → AlertRow → StoredIncident → Db → Result Db
end_alert concurrent now alert incident db =
    let alerts = put_alert (ended now alert) db.alerts in
    let remaining = count_firing_alerts incident.row.id alerts in
    settle_incident concurrent now incident remaining
      (emit (alert_resolved alert.id incident.row.id remaining) (record db { alerts = alerts }))

-- `_process_alert_resolved`, once the firing alert is found, and once its incident is.
unfoldable pub resolve_linked :
    (IncidentRow → IncidentRow)
    → ℕ
    → AlertReceivedCommand
    → AlertRow
    → Option StoredIncident
    → Db
    → Processed
resolve_linked concurrent now command alert none db = err unexpected
resolve_linked concurrent now command alert (some incident) db =
    end_alert concurrent now alert incident db >>= finish command (ended now alert)

unfoldable pub resolve_firing :
    (IncidentRow → IncidentRow) → ℕ → AlertReceivedCommand → AlertRow → Option ℕ → Db → Processed
resolve_firing concurrent now command alert none db = err unexpected
resolve_firing concurrent now command alert (some id) db =
    resolve_linked concurrent now command alert (get_incident id db.incidents) db

abbrev pub resolve_found :
    (IncidentRow → IncidentRow)
    → ℕ
    → AlertReceivedCommand
    → AlertRow
    → AlertStatus
    → Option ℕ
    → Db
    → Processed
resolve_found concurrent now command alert firing id db =
    resolve_firing concurrent now command alert id db
resolve_found concurrent now command alert resolved id db = finish command alert db

unfoldable pub resolve_alert :
    (IncidentRow → IncidentRow)
    → ℕ
    → ℕ
    → AlertReceivedCommand
    → String
    → Option AlertRow
    → Db
    → Processed
resolve_alert concurrent received now command fingerprint none db =
    let alert = new_alert command fingerprint received (some now) db.alerts in
    finish command alert (record db { alerts = alert ∷ db.alerts })
resolve_alert concurrent received now command fingerprint (some alert) db =
    resolve_found concurrent now command alert alert.status alert.incident_id db
