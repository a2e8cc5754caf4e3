-- ===== src/Incident/Ingestion/Replay.antt =====
-- packages/incident/service.py: the ledger of processed commands.
use incident_triage.Base.{
  ℕ, ◌≡◌, refl, zero, suc, String, Bool, false, Option, none, some, List, nat_eq, string_eq, lookup,
  is_some, ==_refl, Bool-cases, inl, inr, subst, ap,
}
use incident_triage.Errors.{Result, ok, err, After, After-bind}
use incident_triage.Floats.{Floats}
use incident_triage.Incident.Row.{IncidentRow}
use incident_triage.Correlation.Rules.{Labels, Signal}
use incident_triage.Correlation.Engine.{
  Verdict, correlate, new_incident, CorrelationDecision, CorrelationEngine,
}
use incident_triage.Incident.Ingestion.{
  AlertStatus, firing, resolved, AlertReceivedCommand, AlertReceivedResult, AlertRow,
  StoredIncident, Db, get_incident, Processed, finalize, finish, ended, end_alert, resolve_linked,
  resolve_found, resolve_firing, resolve_alert, existing_alert,
}
use incident_triage.Incident.Ingestion.Firing.{link_alert}
use incident_triage.Incident.Ingestion.Ledger.{
  join_incident, join_named, matched, process_with, after_attempt, replay_or, correlate_alert,
  process_firing, process_alert_received, Attempt, retry, handle_alert_received,
}

-- The result stands under the command's key.
abbrev pub IsRecorded : AlertReceivedCommand → Db × AlertReceivedResult → Type 0
IsRecorded command (db, result) = lookup command.idempotency_key db.ledger ≡ some result

-- So it does if the transaction did not lose its race.
abbrev IsRecordedIfDone : AlertReceivedCommand → Option (Db × AlertReceivedResult) → Type 0
IsRecordedIfDone command none = Unit
IsRecordedIfDone command (some done) = IsRecorded command done

abbrev Records : AlertReceivedCommand → Processed → Type 0
Records command = After (IsRecordedIfDone command)

finalize-Records :
    (command : AlertReceivedCommand) (result : AlertReceivedResult) (db : Db)
    → Records command (finalize command result db)
unfolding finalize
finalize-Records command result db =
    elim (Bool-cases (is_some (lookup command.idempotency_key db.ledger))) [
      | inl lost ↦ rw (lost, After) tt
      | inr first ↦ rw (first, After, IsRecordedIfDone, ==_refl command.idempotency_key) refl
    ]

finish-Records :
    (command : AlertReceivedCommand) (alert : AlertRow) (db : Db)
    → Records command (finish command alert db)
unfolding finish
finish-Records command alert db = finalize-Records command _ db

link_alert-Records :
    (command : AlertReceivedCommand) (alert : AlertRow) (incident : StoredIncident) (created : Bool)
    (signals : List Signal) (db : Db)
    → Records command (link_alert command alert incident created signals db)
unfolding link_alert
link_alert-Records command alert incident created signals db = finalize-Records command _ _

anything {ℓ} : {A : Type ℓ} (r : Result A) → After (λ a. Unit {0}) r
anything (ok a) = tt
anything (err e) = tt

resolve_linked-Records :
    (concurrent : IncidentRow → IncidentRow) (now : ℕ) (command : AlertReceivedCommand)
    (alert : AlertRow) (incident : Option StoredIncident) (db : Db)
    → Records command (resolve_linked concurrent now command alert incident db)
unfolding resolve_linked
resolve_linked-Records concurrent now command alert none db = tt
resolve_linked-Records concurrent now command alert (some incident) db =
    After-bind (λ (d : Db). Unit) (IsRecordedIfDone command)
      (end_alert concurrent now alert incident db) (finish command (ended now alert))
      (λ d t. finish-Records command (ended now alert) d)
      (anything (end_alert concurrent now alert incident db))

resolve_alert-Records :
    (concurrent : IncidentRow → IncidentRow) (received now : ℕ) (command : AlertReceivedCommand)
    (fingerprint : String) (alert : Option AlertRow) (db : Db)
    → Records command (resolve_alert concurrent received now command fingerprint alert db)
unfolding resolve_alert resolve_firing
resolve_alert-Records concurrent received now command fingerprint none db =
    finish-Records command _ _
resolve_alert-Records concurrent received now command fingerprint (some alert) db =
    found alert.status alert.incident_id
  where
    found :
        (status : AlertStatus) (id : Option ℕ)
        → Records command (resolve_found concurrent now command alert status id db)
    found resolved id = finish-Records command alert db
    found firing none = tt
    found firing (some id) =
        resolve_linked-Records concurrent now command alert (get_incident id db.incidents) db

module _ (fl : Floats) (engine : CorrelationEngine fl) (lookback : ℕ)
    (fingerprint_of : String → Labels → String) (str : ℕ → String) where
  join_incident-Records :
      (command : AlertReceivedCommand) (alert : AlertRow) (received now : ℕ) (verdict : Verdict)
      (decision : CorrelationDecision fl) (db : Db)
      → Records command (
          join_incident fl engine lookback fingerprint_of str command alert received now verdict
            decision db)
  unfolding join_incident join_named
  join_incident-Records command alert received now correlate decision db =
      named
        (matched fl engine lookback fingerprint_of str decision.matched_incident_id db.incidents)
    where
      named :
          (incident : Option StoredIncident)
          → Records command (
              join_named fl engine lookback fingerprint_of str command alert now
                decision.matched_signals incident db)
      named none = tt
      named (some incident) = link_alert-Records command alert _ false _ _
  join_incident-Records command alert received now new_incident decision db =
      link_alert-Records command alert _ _ _ _

  process_alert_received-Records :
      (concurrent : IncidentRow → IncidentRow) (received now : ℕ) (command : AlertReceivedCommand)
      (db : Db)
      → Records command (
          process_alert_received fl engine lookback fingerprint_of str concurrent received now
            command db)
  unfolding process_alert_received process_firing correlate_alert
  process_alert_received-Records concurrent received now command db =
      by_status command.status (existing_alert command db.alerts)
    where
      by_status :
          (status : AlertStatus) (existing : Option AlertRow)
          → Records command (
              process_with fl engine lookback fingerprint_of str concurrent received now command
                (fingerprint_of command.source command.labels)
                status
                existing
                db)
      by_status firing none = join_incident-Records command _ received now _ _ _
      by_status firing (some existing) = finish-Records command existing db
      by_status resolved existing = resolve_alert-Records concurrent received now command _ _ db

  retry-IsRecorded :
      (n i : ℕ) (attempts : ℕ → Attempt fl engine lookback fingerprint_of str)
      (command : AlertReceivedCommand)
      → After
          (IsRecorded command)
          (retry fl engine lookback fingerprint_of str n i attempts command)
  unfolding retry
  retry-IsRecorded zero i attempts command = tt
  retry-IsRecorded (suc n) i attempts command =
      After-bind (IsRecordedIfDone command) (IsRecorded command) _ _
        (λ out recorded.
          settled out (lookup command.idempotency_key (attempts i).reread.ledger) refl recorded
            (retry-IsRecorded n (suc i) attempts command))
        (process_alert_received-Records _ _ _ command (attempts i).start)
    where
      settled :
          (out : Option (Db × AlertReceivedResult)) (winner : Option AlertReceivedResult)
          → lookup command.idempotency_key (attempts i).reread.ledger ≡ winner
          → IsRecordedIfDone command out
          → After
              (IsRecorded command)
              (retry fl engine lookback fingerprint_of str n (suc i) attempts command)
          → After (IsRecorded command) (
              after_attempt fl engine lookback fingerprint_of str command
                (attempts i).reread
                (retry fl engine lookback fingerprint_of str n (suc i) attempts command)
                out
                winner)
      settled (some done) winner e recorded rest = recorded
      settled none (some winner) e recorded rest = e
      settled none none e recorded rest = rest

  handle_alert_received-IsRecorded :
      (db : Db) (attempts : ℕ → Attempt fl engine lookback fingerprint_of str)
      (command : AlertReceivedCommand)
      → After
          (IsRecorded command)
          (handle_alert_received fl engine lookback fingerprint_of str db attempts command)
  unfolding handle_alert_received
  handle_alert_received-IsRecorded db attempts command =
      replayed (lookup command.idempotency_key db.ledger) refl
    where
      replayed :
          (before : Option AlertReceivedResult)
          → lookup command.idempotency_key db.ledger ≡ before
          → After (IsRecorded command) (
              replay_or fl engine lookback fingerprint_of str db
                (retry fl engine lookback fingerprint_of str 3 0 attempts command)
                before)
      replayed (some result) e = e
      replayed none e = retry-IsRecorded 3 0 attempts command

  -- A command that is delivered again after it was processed, whether by this delivery or by one
  -- that won the race, is answered with the recorded result, and changes nothing.
  pub handle_alert_received-replay :
      (db db' : Db) (attempts later : ℕ → Attempt fl engine lookback fingerprint_of str)
      (command : AlertReceivedCommand) (result : AlertReceivedResult)
      → handle_alert_received fl engine lookback fingerprint_of str db attempts command
        ≡ ok (db', result)
      → handle_alert_received fl engine lookback fingerprint_of str db' later command
        ≡ ok (db', result)
  unfolding handle_alert_received
  handle_alert_received-replay db db' attempts later command result e =
      ap
        (replay_or fl engine lookback fingerprint_of str db'
          (retry fl engine lookback fingerprint_of str 3 0 later command))
        (subst (After (IsRecorded command)) e
          (handle_alert_received-IsRecorded db attempts command))
