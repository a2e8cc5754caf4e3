-- ===== src/Incident/Ingestion/Ledger.antt =====
-- packages/incident/service.py: how `handle_alert_received` handles a command, with the ledger of
-- commands and its retries. The correlation engine is a parameter, as are the hash that is an
-- alert's fingerprint and the printing of a number. The look-back is positive.
use incident_triage.Base.{
  ℕ, ◌*◌, ◌/◌, String, Bool, false, Option, none, some, List, ◌∷◌, nat_eq, string_eq, option_eq,
  lookup, suc, zero,
}
use Prim.Native.String.{◌++◌ as concat}
use incident_triage.Errors.{Result, ok, err, ◌>>=◌, unexpected}
use incident_triage.Floats.{Floats}
use incident_triage.Incident.Row.{IncidentRow}
use incident_triage.Correlation.Rules.{Labels, Signal}
use incident_triage.Correlation.Engine.{
  Verdict, correlate, new_incident, CorrelationDecision, CorrelationEngine, decide,
  candidate_lookback_cutoff,
}
use incident_triage.Incident.Ingestion.{
  AlertStatus, firing, resolved, AlertReceivedCommand, AlertReceivedResult, AlertRow,
  StoredIncident, Db, get_incident, put_incident, new_alert, existing_alert, find_alert_to_resolve,
  Processed, finish, resolve_alert,
}
use incident_triage.Incident.Ingestion.Firing.{
  find_open_incident_candidates, get_or_create_open_incident, link_alert, touch,
}

module _ (fl : Floats) (engine : CorrelationEngine fl) (lookback : ℕ)
    (fingerprint_of : String → Labels → String) (str : ℕ → String) where
  -- The incident that the decision names, or that it opens.
  unfoldable pub join_named :
      AlertReceivedCommand → AlertRow → ℕ → List Signal → Option StoredIncident → Db → Processed
  join_named command alert now signals none db = err unexpected
  join_named command alert now signals (some incident) db =
      link_alert command alert (touch now incident) false signals
        (record db { incidents = put_incident (touch now incident) db.incidents })

  abbrev pub matched : Option ℕ → List StoredIncident → Option StoredIncident
  matched none incidents = none
  matched (some id) incidents = get_incident id incidents

  abbrev pub bucket_key : String → ℕ → String
  bucket_key key now = concat key (concat ":" (str (now / (lookback * 1000000))))

  abbrev pub join_new :
      AlertReceivedCommand → AlertRow → List Signal → Db × (StoredIncident × Bool) → Processed
  join_new command alert signals (db, (incident, created)) =
      link_alert command alert incident created signals db

  unfoldable pub join_incident :
      AlertReceivedCommand
      → AlertRow
      → (received now : ℕ) → Verdict
      → CorrelationDecision fl
      → Db
      → Processed
  join_incident command alert received now correlate decision db =
      join_named command alert now decision.matched_signals
        (matched decision.matched_incident_id db.incidents) db
  join_incident command alert received now new_incident decision db =
      join_new command alert decision.matched_signals
        (get_or_create_open_incident command (bucket_key decision.correlation_key now) received db)

  abbrev pub decision_on : AlertReceivedCommand → String → ℕ → Db → CorrelationDecision fl
  decision_on command fingerprint now db =
      decide fl engine
        (record {
          source = command.source;
          fingerprint = fingerprint;
          labels = command.labels;
          service = command.service;
          environment = command.environment;
          received_at = now;
        })
        (find_open_incident_candidates command.service command.environment
          (candidate_lookback_cutoff now lookback) db.alerts db.incidents)

  unfoldable pub correlate_alert :
      AlertReceivedCommand → String → (received now : ℕ) → Db → Processed
  correlate_alert command fingerprint received now db =
      let alert = new_alert command fingerprint received none db.alerts in
      let inserted = record db { alerts = alert ∷ db.alerts } in
      let decision = decision_on command fingerprint now inserted in
      join_incident command alert received now decision.decision decision inserted

  unfoldable pub process_firing :
      AlertReceivedCommand → String → (received now : ℕ) → Option AlertRow → Db → Processed
  process_firing command fingerprint received now none db =
      correlate_alert command fingerprint received now db
  process_firing command fingerprint received now (some existing) db = finish command existing db

  abbrev pub process_with :
      (IncidentRow → IncidentRow)
      → (received now : ℕ) → AlertReceivedCommand
      → String
      → AlertStatus
      → Option AlertRow
      → Db
      → Processed
  process_with concurrent received now command fingerprint firing existing db =
      process_firing command fingerprint received now existing db
  process_with concurrent received now command fingerprint resolved existing db =
      resolve_alert concurrent received now command fingerprint
        (find_alert_to_resolve command fingerprint db) db

  unfoldable pub process_alert_received :
      (IncidentRow → IncidentRow) → (received now : ℕ) → AlertReceivedCommand → Db → Processed
  process_alert_received concurrent received now command db =
      process_with concurrent received now command (fingerprint_of command.source command.labels)
        command.status (existing_alert command db.alerts) db

  -- One try: the database that its transaction works on, the one that is read after a lost race,
  -- and the times.
  pub record Attempt : Type 0 where
    pub start : Db
    pub reread : Db
    pub concurrent : IncidentRow → IncidentRow
    pub received : ℕ
    pub now : ℕ

  abbrev pub max_idempotency_race_retries : ℕ
  max_idempotency_race_retries = 3

  -- What a try comes to: done, or lost to a winner, or to be tried again.
  abbrev pub after_attempt :
      AlertReceivedCommand
      → Db
      → Result (Db × AlertReceivedResult)
      → Option (Db × AlertReceivedResult)
      → Option AlertReceivedResult
      → Result (Db × AlertReceivedResult)
  after_attempt command reread again (some done) winner = ok done
  after_attempt command reread again none (some winner) = ok (reread, winner)
  after_attempt command reread again none none = again

  unfoldable pub retry :
      ℕ → ℕ → (ℕ → Attempt) → AlertReceivedCommand → Result (Db × AlertReceivedResult)
  retry zero i attempts command = err unexpected
  retry (suc n) i attempts command =
      let attempt = attempts i in
      let again = retry n (suc i) attempts command in
      process_alert_received attempt.concurrent attempt.received attempt.now command attempt.start
      >>= λ out.
          after_attempt command attempt.reread again out
            (lookup command.idempotency_key attempt.reread.ledger)

  abbrev pub replay_or :
      Db
      → Result (Db × AlertReceivedResult)
      → Option AlertReceivedResult
      → Result (Db × AlertReceivedResult)
  replay_or db fresh (some result) = ok (db, result)
  replay_or db fresh none = fresh

  unfoldable pub handle_alert_received :
      Db → (ℕ → Attempt) → AlertReceivedCommand → Result (Db × AlertReceivedResult)
  handle_alert_received db attempts command =
      replay_or db (retry max_idempotency_race_retries 0 attempts command)
        (lookup command.idempotency_key db.ledger)
