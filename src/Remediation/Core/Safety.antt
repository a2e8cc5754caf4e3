-- ===== src/Remediation/Core/Safety.antt =====
-- packages/incident/remediations.py: what the commands keep true of a remediation.
use incident_triage.Base.{
  ℕ, ◌≤◌, ◌<◌, ◌≡◌, refl, Bool, true, false, Option, none, some, List, [], ◌∷◌, arith, length,
}
use incident_triage.Errors.{After, After-map, After-bind}
use incident_triage.Incident.Status.{IncidentStatus, incident_status_eq}
use incident_triage.Incident.Row.{transition_incident_status}
use incident_triage.Remediation.Status.{RemediationStatus}
use incident_triage.Remediation.Catalog.{ActionCatalogEntry, get_entry}
use incident_triage.Remediation.Rows.{
  Code, TimelineEvent, Event, RemediationRow, ApprovalRow, ExecutionRow, RequestedVerification, Db,
}
use incident_triage.Remediation.Core.{
  transition, move_incident, release, finish_failed, finish_cancelled, emit,
}
use incident_triage.Remediation.Core.Execution.{approval_binds}

-- The attempts are within the limit of the action's entry.
abbrev pub Within : Option ActionCatalogEntry → ℕ → Type 0
Within none attempts = Unit
Within (some e) attempts = attempts ≤ e.max_attempts

-- The remediation has one verification, the one that it refers to.
abbrev pub HasOneVerification : RemediationRow → List RequestedVerification → Type 0
HasOneVerification row [] = ⊥
HasOneVerification row (v ∷ []) = row.verification_ref ≡ some v.id
HasOneVerification row (v ∷ w ∷ vs) = ⊥

abbrev pub is_executed : RemediationStatus → Bool
is_executed RemediationStatus.executed = true
is_executed _ = false

abbrev pub is_unstarted : RemediationStatus → Bool
is_unstarted RemediationStatus.proposed = true
is_unstarted RemediationStatus.policy_rejected = true
is_unstarted RemediationStatus.awaiting_approval = true
is_unstarted RemediationStatus.approved = true
is_unstarted _ = false

pub record IsSafeRow (row : RemediationRow) (approval : Option ApprovalRow)
    (executions : List ExecutionRow) (verifications : List RequestedVerification) : Type 0 where
  pub counted : row.execution_attempts ≡ length executions
  pub bounded : Within (get_entry row.action_id) row.execution_attempts
  pub approved_first : 0 < row.execution_attempts → approval_binds approval row ≡ true
  pub unstarted : is_unstarted row.status ≡ true → row.execution_attempts ≡ 0
  pub verified : is_executed row.status ≡ true → HasOneVerification row verifications
  pub unverified : is_executed row.status ≡ false → verifications ≡ []

abbrev pub IsSafe : Db → Type 0
IsSafe db = IsSafeRow db.row db.approval db.executions db.verifications

-- The parts of the database that `IsSafe` is about.
abbrev pub Same : Db → Db → Type 0
Same db db' =
    (db'.row ≡ db.row)
    × (db'.approval ≡ db.approval)
    × (db'.executions ≡ db.executions)
    × (db'.verifications ≡ db.verifications)

Same-IsSafe : (db db' : Db) → IsSafe db → Same db db' → IsSafe db'
Same-IsSafe db db' v same = rw (same.0, same.1, same.2, same.3) v

pub move_incident-Same :
    (now : ℕ) (from_statuses : List IncidentStatus) (to_status : IncidentStatus) (db : Db)
    → After (Same db) (move_incident now from_statuses to_status db)
unfolding move_incident transition_incident_status
move_incident-Same now from_statuses to_status db = ground arith

pub move_incident-IsSafe :
    (now : ℕ) (from_statuses : List IncidentStatus) (to_status : IncidentStatus) (db : Db)
    → IsSafe db
    → After IsSafe (move_incident now from_statuses to_status db)
move_incident-IsSafe now from_statuses to_status db v =
    After-map (Same db) IsSafe (move_incident now from_statuses to_status db)
      (λ db' same. Same-IsSafe db db' v same) (move_incident-Same now from_statuses to_status db)

abbrev is_ending : RemediationStatus → Bool
is_ending RemediationStatus.failed = true
is_ending RemediationStatus.cancelled = true
is_ending _ = false

ending-IsSafe :
    (now : ℕ) (to_status : RemediationStatus) (event : TimelineEvent) (code : Code) (db : Db)
    → is_ending to_status ≡ true
    → IsSafe db
    → After IsSafe (transition now to_status event (release now code db))
unfolding transition
ending-IsSafe now to_status event code db ends v = ground arith

emit-IsSafe : (e : Event) (db : Db) → IsSafe db → IsSafe (emit e db)
emit-IsSafe e db v = v

pub finish_failed-IsSafe :
    (now : ℕ) (code : Code) (db : Db) → IsSafe db → After IsSafe (finish_failed now code db)
unfolding finish_failed
finish_failed-IsSafe now code db v =
    After-bind IsSafe IsSafe
      (transition now RemediationStatus.failed TimelineEvent.failed (release now code db)) _
      (λ ended w. move_incident-IsSafe now _ _ _ w)
      (ending-IsSafe now RemediationStatus.failed TimelineEvent.failed code db refl v)

pub finish_cancelled-IsSafe :
    (now : ℕ) (event : TimelineEvent) (code : Code) (incident_to : IncidentStatus)
    (event_type : Event) (db : Db)
    → IsSafe db
    → After IsSafe (finish_cancelled now event code incident_to event_type db)
unfolding finish_cancelled
finish_cancelled-IsSafe now event code incident_to event_type db v =
    After-bind IsSafe IsSafe
      (transition now RemediationStatus.cancelled event (release now code db)) _
      (λ ended w. move_incident-IsSafe now _ _ _ w)
      (ending-IsSafe now RemediationStatus.cancelled event code db refl v)
