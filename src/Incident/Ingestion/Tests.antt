-- ===== src/Incident/Ingestion/Tests.antt =====
-- packages/incident/service.py: an alert that fires, is delivered again, and is resolved.
use incident_triage.Base.{ℕ, String, ◌≡◌, refl, false, none, some, []}
use incident_triage.Errors.{Result, ok, err, After}
use incident_triage.Floats.{exact}
use incident_triage.Incident.Status.{IncidentStatus}
use incident_triage.Correlation.Rules.{Labels}
use incident_triage.Correlation.Engine.{CorrelationEngine, decide, search_candidates}
use incident_triage.Incident.Row.{transition_incident_status}
use incident_triage.Incident.Ingestion.{
  firing, resolved, AlertReceivedCommand, AlertReceivedResult, Db, count_firing_alerts,
  find_alert_to_resolve, finalize, finish, settle_incident, end_alert, resolve_linked,
  resolve_firing, resolve_alert,
}
use incident_triage.Incident.Ingestion.Firing.{
  find_open_incident_candidates, get_or_create_open_incident, link_alert,
}
use incident_triage.Incident.Ingestion.Ledger.{
  join_incident, correlate_alert, process_firing, process_alert_received, Attempt, retry,
  handle_alert_received,
}
use incident_triage.Incident.Ingestion.Replay.{handle_alert_received-replay}
use incident_triage.Incident.Ingestion.Triage.{IsTended}
use incident_triage.Incident.Ingestion.Keeping.{handle_alert_received-IsTended}

abbrev engine : CorrelationEngine exact
engine = record { rules = []; threshold = 6000; new_incident_correlation_key = none }

-- The hash of the examples.
abbrev fingerprint_of : String → Labels → String
fingerprint_of source labels = source

abbrev digits : ℕ → String
digits n = "0"

abbrev empty : Db
empty = record { alerts = []; incidents = []; ledger = []; outbox = [] }

abbrev fires : AlertReceivedCommand
fires = record {
  idempotency_key = "key";
  source = "alertmanager";
  external_id = some "a1";
  labels = [];
  service = "checkout";
  environment = "production";
  severity = "critical";
  status = firing;
}

abbrev ends : AlertReceivedCommand
ends = record fires { idempotency_key = "key:resolved"; status = resolved }

abbrev attempts_on : Db → ℕ → Attempt exact engine 900 fingerprint_of digits
attempts_on db i = record {
  start = db;
  reread = db;
  concurrent = λ r. r;
  received = 100;
  now = 100;
}

abbrev no_result : AlertReceivedResult
no_result = record {
  alert_id = 0;
  incident_id = none;
  incident_created = false;
  incident_status = none;
}

abbrev committed : Result (Db × AlertReceivedResult) → Db × AlertReceivedResult
committed (ok out) = out
committed (err e) = (empty, no_result)

abbrev opened : Db × AlertReceivedResult
opened =
    committed
      (handle_alert_received exact engine 900 fingerprint_of digits empty (attempts_on empty) fires)

opens :
    handle_alert_received exact engine 900 fingerprint_of digits empty (attempts_on empty) fires
    ≡ ok opened
unfolding handle_alert_received retry process_alert_received process_firing correlate_alert
    join_incident get_or_create_open_incident link_alert decide search_candidates
    find_open_incident_candidates finalize
opens = refl

opened-status : opened.1.incident_status ≡ some IncidentStatus.triaging
unfolding handle_alert_received retry process_alert_received process_firing correlate_alert
    join_incident get_or_create_open_incident link_alert decide search_candidates
    find_open_incident_candidates finalize
opened-status = refl

-- Once its only alert is resolved, the incident is cancelled.
abbrev ended_db : Db × AlertReceivedResult
ended_db = committed (
    handle_alert_received exact engine 900 fingerprint_of digits opened.0 (attempts_on opened.0)
      ends)

ended-status : ended_db.1.incident_status ≡ some IncidentStatus.cancelled
unfolding handle_alert_received retry process_alert_received process_firing correlate_alert
    join_incident get_or_create_open_incident link_alert decide search_candidates
    find_open_incident_candidates finalize finish resolve_alert resolve_firing resolve_linked
    end_alert settle_incident count_firing_alerts find_alert_to_resolve transition_incident_status
ended-status = refl

handle_alert_received-replay_example :
    handle_alert_received exact engine 900 fingerprint_of digits opened.0
      (attempts_on opened.0)
      fires
    ≡ ok (opened.0, opened.1)
handle_alert_received-replay_example =
    handle_alert_received-replay exact engine 900 fingerprint_of digits empty opened.0
      (attempts_on empty) (attempts_on opened.0) fires opened.1 opens

empty-IsTended : IsTended empty
empty-IsTended = record { numbered = tt; tended = λ id. refl }

handle_alert_received-IsTended_example :
    After
      (λ out. IsTended out.0)
      (handle_alert_received exact engine 900 fingerprint_of digits empty (attempts_on empty) fires)
handle_alert_received-IsTended_example =
    handle_alert_received-IsTended exact engine 900 fingerprint_of digits empty (attempts_on empty)
      fires
      (record { keeps = λ i r. refl; start = λ i. empty-IsTended; reread = λ i. empty-IsTended })
      empty-IsTended
