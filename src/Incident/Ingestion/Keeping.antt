-- ===== src/Incident/Ingestion/Keeping.antt =====
-- packages/incident/service.py: what every command on an alert keeps true of the incidents.
use incident_triage.Base.{
  ℕ, ◌≡◌, refl, zero, suc, Bool, true, false, Option, none, some, List, ◌∷◌, nat_eq, string_eq,
  length, find, ◌==◌, String, lookup, sym, ap, ◌∙◌, subst,
}
use incident_triage.Errors.{After, After-bind}
use incident_triage.Floats.{Floats}
use incident_triage.Incident.Row.{IncidentRow}
use incident_triage.Correlation.Rules.{Labels, Signal}
use incident_triage.Correlation.Engine.{
  Verdict, correlate, new_incident, CorrelationDecision, CorrelationEngine,
}
use incident_triage.Incident.Ingestion.{
  AlertStatus, firing, resolved, is_firing, AlertReceivedCommand, AlertReceivedResult, AlertRow,
  StoredIncident, Db, get_incident, put_incident, new_alert, finish, ended, end_alert,
  resolve_linked, resolve_found, resolve_firing, resolve_alert, find_alert_to_resolve, meant,
}
use incident_triage.Incident.Ingestion.Firing.{
  adopt_or_open, get_or_create_open_incident, select_open_incident, touch,
}
use incident_triage.Incident.Ingestion.Ledger.{
  join_named, join_new, join_incident, bucket_key, correlate_alert, process_firing, process_with,
  process_alert_received, Attempt, after_attempt, retry, replay_or, handle_alert_received,
}
use incident_triage.Incident.Ingestion.Numbering.{
  get_incident-id, get-put_incident_other, IsFound, find-IsFound, newest-IsFound,
}
use incident_triage.Incident.Ingestion.Ending.{end_alert-IsTended}
use incident_triage.Incident.Ingestion.Triage.{
  IsTended, Tends, TendedIfDone, finish-Tends, insert-IsTended, link_alert-Tends,
}

-- Others may change a row between its reading and its update, but not its identifier.
abbrev pub KeepsId : (IncidentRow → IncidentRow) → Type 0
KeepsId concurrent = (r : IncidentRow) → (concurrent r).id ≡ r.id

resolve_linked-Tends :
    (concurrent : IncidentRow → IncidentRow) (now : ℕ) (command : AlertReceivedCommand)
    (p : AlertRow → Bool) (alert : AlertRow) (id : ℕ) (incident : Option StoredIncident) (db : Db)
    → KeepsId concurrent
    → find p db.alerts ≡ some alert
    → alert.incident_id ≡ some id
    → get_incident id db.incidents ≡ incident
    → IsTended db
    → Tends (resolve_linked concurrent now command alert incident db)
unfolding resolve_linked
resolve_linked-Tends concurrent now command p alert id none db keeps found to_it here t = tt
resolve_linked-Tends concurrent now command p alert id (some incident) db keeps found to_it here t =
    let same = sym (get_incident-id id db.incidents here) in
    After-bind IsTended TendedIfDone (end_alert concurrent now alert incident db)
      (finish command (ended now alert)) (λ d u. finish-Tends command (ended now alert) d u)
      (end_alert-IsTended concurrent now p alert incident db keeps found
        (to_it ∙ ap (λ k. some k) same)
        (subst (λ k. get_incident k db.incidents ≡ some incident) same here) t)

resolve_found-Tends :
    (concurrent : IncidentRow → IncidentRow) (now : ℕ) (command : AlertReceivedCommand)
    (p : AlertRow → Bool) (alert : AlertRow) (status : AlertStatus) (id : Option ℕ) (db : Db)
    → KeepsId concurrent
    → find p db.alerts ≡ some alert
    → alert.incident_id ≡ id
    → IsTended db
    → Tends (resolve_found concurrent now command alert status id db)
unfolding resolve_firing
resolve_found-Tends concurrent now command p alert resolved id db keeps found to_it t =
    finish-Tends command alert db t
resolve_found-Tends concurrent now command p alert firing none db keeps found to_it t = tt
resolve_found-Tends concurrent now command p alert firing (some id) db keeps found to_it t =
    resolve_linked-Tends concurrent now command p alert id _ db keeps found to_it refl t

resolve_alert-Tends :
    (concurrent : IncidentRow → IncidentRow) (received now : ℕ) (command : AlertReceivedCommand)
    (fingerprint : String) (alert : Option AlertRow) (db : Db)
    → KeepsId concurrent
    → IsFound alert db.alerts
    → IsTended db
    → Tends (resolve_alert concurrent received now command fingerprint alert db)
unfolding resolve_alert
resolve_alert-Tends concurrent received now command fingerprint none db keeps found t =
    finish-Tends command _ _
      (insert-IsTended (new_alert command fingerprint received (some now) db.alerts) db refl t)
resolve_alert-Tends concurrent received now command fingerprint (some alert) db keeps found t =
    resolve_found-Tends concurrent now command (λ b. b.id == alert.id) alert alert.status
      alert.incident_id db keeps found refl t

meant-IsFound :
    (external_id : Option String) (source fingerprint : String) (db : Db)
    → IsTended db
    → IsFound (meant external_id source fingerprint db.incidents db.alerts) db.alerts
meant-IsFound none source fingerprint db t = newest-IsFound _ db.alerts _ t.numbered refl
meant-IsFound (some e) source fingerprint db t = find-IsFound _ db.alerts _ t.numbered refl

module _ (fl : Floats) (engine : CorrelationEngine fl) (lookback : ℕ)
    (fingerprint_of : String → Labels → String) (str : ℕ → String) where
  join_named-Tends :
      (command : AlertReceivedCommand) (alert : AlertRow) (now : ℕ) (signals : List Signal)
      (incident : Option StoredIncident) (db : Db)
      → is_firing alert.status ≡ true
      → alert.id ≡ length db.alerts
      → IsTended db
      → Tends (
          join_named fl engine lookback fingerprint_of str command alert now signals incident
            (record db { alerts = alert ∷ db.alerts }))
  unfolding join_named
  join_named-Tends command alert now signals none db fires n t = tt
  join_named-Tends command alert now signals (some incident) db fires n t =
      link_alert-Tends command alert (touch now incident) false signals
        (put_incident (touch now incident) db.incidents) db fires n
        (λ id other. get-put_incident_other id (touch now incident) db.incidents other) t

  join_new-Tends :
      (command : AlertReceivedCommand) (alert : AlertRow) (signals : List Signal) (key : String)
      (received : ℕ) (existing : Option StoredIncident) (db : Db)
      → is_firing alert.status ≡ true
      → alert.id ≡ length db.alerts
      → IsTended db
      → Tends (
          join_new fl engine lookback fingerprint_of str command alert signals (
            adopt_or_open command key received existing (record db { alerts = alert ∷ db.alerts })))
  join_new-Tends command alert signals key received (some i) db fires n t =
      link_alert-Tends command alert i false signals db.incidents db fires n (λ id other. refl) t
  join_new-Tends command alert signals key received none db fires n t =
      link_alert-Tends command alert _ true signals _ db fires n (λ id other. rw other refl) t

  join_incident-Tends :
      (command : AlertReceivedCommand) (alert : AlertRow) (received now : ℕ) (verdict : Verdict)
      (decision : CorrelationDecision fl) (db : Db)
      → is_firing alert.status ≡ true
      → alert.id ≡ length db.alerts
      → IsTended db
      → Tends (
          join_incident fl engine lookback fingerprint_of str command alert received now verdict
            decision
            (record db { alerts = alert ∷ db.alerts }))
  unfolding join_incident get_or_create_open_incident
  join_incident-Tends command alert received now correlate decision db fires n t =
      join_named-Tends command alert now decision.matched_signals _ db fires n t
  join_incident-Tends command alert received now new_incident decision db fires n t =
      let key = bucket_key fl engine lookback fingerprint_of str decision.correlation_key now in
      join_new-Tends command alert decision.matched_signals key received
        (select_open_incident key db.incidents) db fires n t

  process_with-Tends :
      (concurrent : IncidentRow → IncidentRow) (received now : ℕ) (command : AlertReceivedCommand)
      (fingerprint : String) (status : AlertStatus) (existing : Option AlertRow) (db : Db)
      → KeepsId concurrent
      → command.status ≡ status
      → IsTended db
      → Tends (
          process_with fl engine lookback fingerprint_of str concurrent received now command
            fingerprint status existing db)
  unfolding process_firing correlate_alert find_alert_to_resolve
  process_with-Tends concurrent received now command fingerprint firing (some alert) db keeps e t =
      finish-Tends command alert db t
  process_with-Tends concurrent received now command fingerprint firing none db keeps e t =
      join_incident-Tends command (new_alert command fingerprint received none db.alerts) received
        now _ _ db (ap is_firing e) refl t
  process_with-Tends concurrent received now command fingerprint resolved existing db keeps e t =
      resolve_alert-Tends concurrent received now command fingerprint _ db keeps
        (meant-IsFound command.external_id command.source fingerprint db t) t

  process_alert_received-Tends :
      (concurrent : IncidentRow → IncidentRow) (received now : ℕ) (command : AlertReceivedCommand)
      (db : Db)
      → KeepsId concurrent
      → IsTended db
      → Tends (
          process_alert_received fl engine lookback fingerprint_of str concurrent received now
            command db)
  unfolding process_alert_received
  process_alert_received-Tends concurrent received now command db keeps t =
      process_with-Tends concurrent received now command _ command.status _ db keeps refl t

  -- The databases of every try are in order.
  pub record AreTended (attempts : ℕ → Attempt fl engine lookback fingerprint_of str) : Type 0 where
    pub keeps : (i : ℕ) → KeepsId (attempts i).concurrent
    pub start : (i : ℕ) → IsTended (attempts i).start
    pub reread : (i : ℕ) → IsTended (attempts i).reread

  retry-IsTended :
      (n i : ℕ) (attempts : ℕ → Attempt fl engine lookback fingerprint_of str)
      (command : AlertReceivedCommand)
      → AreTended attempts
      → After
          (λ out. IsTended out.0)
          (retry fl engine lookback fingerprint_of str n i attempts command)
  unfolding retry
  retry-IsTended zero i attempts command a = tt
  retry-IsTended (suc n) i attempts command a =
      After-bind TendedIfDone (λ (out : Db × AlertReceivedResult). IsTended out.0) _ _
        (λ out t.
          settled out (lookup command.idempotency_key (attempts i).reread.ledger) t
            (retry-IsTended n (suc i) attempts command a))
        (process_alert_received-Tends _ _ _ command (attempts i).start (a.keeps i) (a.start i))
    where
      settled :
          (out : Option (Db × AlertReceivedResult)) (winner : Option AlertReceivedResult)
          → TendedIfDone out
          → After
              (λ out. IsTended out.0)
              (retry fl engine lookback fingerprint_of str n (suc i) attempts command)
          → After
              (λ out. IsTended out.0)
              (after_attempt fl engine lookback fingerprint_of str command
                (attempts i).reread
                (retry fl engine lookback fingerprint_of str n (suc i) attempts command)
                out
                winner)
      settled (some done) winner t rest = t
      settled none (some winner) t rest = a.reread i
      settled none none t rest = rest

  -- If no incident in triage is without a firing alert, neither in the database nor in those that
  -- later tries find, whose alerts are numbered as they were inserted, and if no other transaction
  -- changes an incident's identifier, then none is after the command, whether it reports an alert
  -- that fires or one that is resolved; and the alerts are still numbered so.
  pub handle_alert_received-IsTended :
      (db : Db) (attempts : ℕ → Attempt fl engine lookback fingerprint_of str)
      (command : AlertReceivedCommand)
      → AreTended attempts
      → IsTended db
      → After
          (λ out. IsTended out.0)
          (handle_alert_received fl engine lookback fingerprint_of str db attempts command)
  unfolding handle_alert_received
  handle_alert_received-IsTended db attempts command a t =
      replayed (lookup command.idempotency_key db.ledger)
    where
      replayed :
          (before : Option AlertReceivedResult)
          → After
              (λ out. IsTended out.0)
              (replay_or fl engine lookback fingerprint_of str db
                (retry fl engine lookback fingerprint_of str 3 0 attempts command)
                before)
      replayed (some result) = t
      replayed none = retry-IsTended 3 0 attempts command a
