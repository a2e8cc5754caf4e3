-- ===== src/Incident/Ingestion/Triage.antt =====
-- packages/incident/service.py: an incident in triage has a firing alert.
use incident_triage.Base.{
  ℕ, ◌≡◌, ◌≤◌, refl, Bool, true, false, ◌&&◌, Option, none, some, List, ◌∷◌, ◌==◌, nat_eq,
  option_eq, length, Bool-cases, inl, inr, arith, ==→eq, ==_refl, subst, sym, ap, ◌∙◌, string_eq,
  is_some, lookup,
}
use incident_triage.Errors.{After}
use incident_triage.Incident.Status.{incident_status_eq, triaging}
use incident_triage.Correlation.Rules.{Signal}
use incident_triage.Incident.Ingestion.{
  is_firing, AlertReceivedCommand, AlertReceivedResult, AlertRow, StoredIncident, Db, get_incident,
  count_firing_alerts, finalize, finish, Processed,
}
use incident_triage.Incident.Ingestion.Firing.{link_alert}
use incident_triage.Incident.Ingestion.Numbering.{HaveNumbers, weight, count_cons}

-- An incident in triage none of whose alerts fires.
abbrev pub is_quiet : Option StoredIncident → ℕ → Bool
is_quiet none firing_alerts = false
is_quiet (some i) firing_alerts = (i.row.status == triaging) && (firing_alerts == 0)

abbrev pub is_unattended : Db → ℕ → Bool
is_unattended db id = is_quiet (get_incident id db.incidents) (count_firing_alerts id db.alerts)

pub record IsTended (db : Db) : Type 0 where
  pub numbered : HaveNumbers db.alerts
  pub tended : (id : ℕ) → is_unattended db id ≡ false

-- So it stays while alerts are added, and once one fires.
pub more_alerts :
    (i : Option StoredIncident) (m n : ℕ) → m ≤ n → is_quiet i m ≡ false → is_quiet i n ≡ false
more_alerts none m n l h = refl
more_alerts (some i) m n l h = ground (arith, l, h)

one_alert : (i : Option StoredIncident) (n : ℕ) → 1 ≤ n → is_quiet i n ≡ false
one_alert none n l = refl
one_alert (some i) n l = ground (arith, l)

abbrev pub TendedIfDone : Option (Db × AlertReceivedResult) → Type 0
TendedIfDone none = Unit
TendedIfDone (some out) = IsTended out.0

abbrev pub Tends : Processed → Type 0
Tends = After TendedIfDone

pub finalize-Tends :
    (command : AlertReceivedCommand) (result : AlertReceivedResult) (db : Db)
    → IsTended db
    → Tends (finalize command result db)
unfolding finalize
finalize-Tends command result db t =
    elim (Bool-cases (is_some (lookup command.idempotency_key db.ledger))) [
      | inl lost ↦ rw (lost, After) tt
      | inr first ↦ rw (first, After) (record { numbered = t.numbered; tended = t.tended })
    ]

pub finish-Tends :
    (command : AlertReceivedCommand) (alert : AlertRow) (db : Db)
    → IsTended db
    → Tends (finish command alert db)
unfolding finish
finish-Tends command alert db t = finalize-Tends command _ db t

-- Another alert takes nothing away.
pub insert-IsTended :
    (a : AlertRow) (db : Db)
    → a.id ≡ length db.alerts
    → IsTended db
    → IsTended (record db { alerts = a ∷ db.alerts })
insert-IsTended a db n t = record {
  numbered = (n, t.numbered);
  tended = λ id.
      more_alerts _ (count_firing_alerts id db.alerts) _ (omega (arith, count_cons id a db.alerts))
        (t.tended id);
}

weight_linked :
    (a : AlertRow) (id : ℕ) → is_firing a.status ≡ true → a.incident_id ≡ some id → weight id a ≡ 1
weight_linked a id fires to_it = rw (to_it, fires, ==_refl id) refl

-- An alert that fires is linked to an incident, which may be new or changed.
pub link-IsTended :
    (a : AlertRow) (incident : StoredIncident) (incidents : List StoredIncident) (db : Db)
    → is_firing a.status ≡ true
    → a.id ≡ length db.alerts
    → a.incident_id ≡ some incident.row.id
    → ((id : ℕ)
        → (incident.row.id == id) ≡ false
        → get_incident id incidents ≡ get_incident id db.incidents)
    → IsTended db
    → IsTended (record db { alerts = a ∷ db.alerts; incidents = incidents })
link-IsTended a incident incidents db fires n to_it others t = record {
  numbered = (n, t.numbered);
  tended = λ id. elim (Bool-cases (incident.row.id == id)) [
    | inl same ↦
        let is : incident.row.id ≡ id = ==→eq incident.row.id id same in
        one_alert (get_incident id incidents) _ (
          omega (
            arith,
            count_cons id a db.alerts,
            weight_linked a id fires (to_it ∙ ap (λ k. some k) is),
          ))
    | inr other ↦
        subst (λ o. is_quiet o (count_firing_alerts id (a ∷ db.alerts)) ≡ false)
          (sym (others id other))
          (more_alerts _ (count_firing_alerts id db.alerts) _
            (omega (arith, count_cons id a db.alerts)) (t.tended id))
  ];
}

pub link_alert-Tends :
    (command : AlertReceivedCommand) (alert : AlertRow) (incident : StoredIncident) (created : Bool)
    (signals : List Signal) (incidents : List StoredIncident) (db : Db)
    → is_firing alert.status ≡ true
    → alert.id ≡ length db.alerts
    → ((id : ℕ)
        → (incident.row.id == id) ≡ false
        → get_incident id incidents ≡ get_incident id db.incidents)
    → IsTended db
    → Tends (
        link_alert command alert incident created signals
          (record db { alerts = alert ∷ db.alerts; incidents = incidents }))
unfolding link_alert
link_alert-Tends command alert incident true signals incidents db fires n others t =
    let u =
      link-IsTended (record alert { incident_id = some incident.row.id }) incident incidents db
        fires n refl others t in
    rw (==_refl alert.id)
      (finalize-Tends command _ _ (record { numbered = u.numbered; tended = u.tended }))
link_alert-Tends command alert incident false signals incidents db fires n others t =
    let u =
      link-IsTended (record alert { incident_id = some incident.row.id }) incident incidents db
        fires n refl others t in
    rw (==_refl alert.id)
      (finalize-Tends command _ _ (record { numbered = u.numbered; tended = u.tended }))
