-- ===== src/Remediation/Core/Fencing.antt =====
-- packages/incident/remediations.py: reports of workers that hold no lease, and kill switches.
use incident_triage.Base.{
  ℕ, ◌≡◌, ◌≢◌, refl, Bool, true, not, Option, none, some, List, [], ◌∷◌, arith, String, subst,
  Bool-cases, inl, inr, ◌==◌, ◌||◌, ◌⊎◌, string_eq, option_eq, nat_eq, ==→eq,
}
use incident_triage.Errors.{ok, After, After-map, After-bind}
use incident_triage.Remediation.Status.{RemediationStatus, remediation_status_eq, can_transition}
use incident_triage.Remediation.Catalog.{get_entry}
use incident_triage.Remediation.Rows.{
  ExecutionRow, Scope, Code, TimelineEvent, remediation_cancelled, Db,
}
use incident_triage.Remediation.Core.{finish_cancelled, transition, release, emit}
use incident_triage.Remediation.Core.Execution.{
  Environment, ExecutionTicket, attempt_execution, execution_blocker, refuse_attempt, is_engaged,
  claim_execution, claim_with, is_running, is_claimable, no_ticket,
}
use incident_triage.Remediation.Core.Report.{
  Outcome, complete_execution, complete_found, is_executing, find_execution,
}
use incident_triage.Remediation.Core.Safety.{Same, move_incident-Same}

complete_found-fenced :
    (env : Environment) (owner : String) (outcome : Outcome) (retryable : Bool) (now : ℕ)
    (found : Option ExecutionRow) (db : Db)
    → (db.row.status ≢ RemediationStatus.executing) ⊎ (db.row.lease_owner ≢ some owner)
    → After (λ db'. db' ≡ db) (complete_found env owner outcome retryable now found db)
unfolding complete_found
complete_found-fenced env owner outcome retryable now none db late = tt
complete_found-fenced env owner outcome retryable now (some execution) db late =
    elim (Bool-cases (is_executing db.row)) [
      | inr settled ↦ rw (settled, After) refl
      | inl runs ↦ elim (Bool-cases (db.row.lease_owner == some owner)) [
        | inr lost ↦ rw (runs, lost, After) tt
        | inl held ↦ absurd (elim late [
          | inl other ↦ other (==→eq db.row.status RemediationStatus.executing runs)
          | inr other ↦ other (==→eq db.row.lease_owner (some owner) held)
        ])
      ]
    ]

-- A report about a remediation that is not executing, or from a worker that does not hold its
-- lease, is refused or changes nothing.
pub complete_execution-fenced :
    (env : Environment) (owner : String) (execution_id : ℕ) (outcome : Outcome) (retryable : Bool)
    (now : ℕ) (db : Db)
    → (db.row.status ≢ RemediationStatus.executing) ⊎ (db.row.lease_owner ≢ some owner)
    → After (λ db'. db' ≡ db) (complete_execution env owner execution_id outcome retryable now db)
unfolding complete_execution
complete_execution-fenced env owner execution_id outcome retryable now db late =
    complete_found-fenced env owner outcome retryable now
      (find_execution execution_id db.executions) db late

-- The remediation is cancelled for an engaged kill switch, and nothing was attempted.
abbrev IsStopped : Db → Db → Type 0
IsStopped db db' =
    (db'.row.status ≡ RemediationStatus.cancelled)
    × (db'.row.failure_reason ≡ some Code.kill_switch)
    × (db'.executions ≡ db.executions)

abbrev pub is_stopped : Db → Bool
is_stopped db =
    is_engaged Scope.global db.engaged_scopes
    || is_engaged (Scope.service db.row.target_service) db.engaged_scopes

-- No attempt is under way.
abbrev pub is_idle : List ExecutionRow → Bool
is_idle [] = true
is_idle (latest ∷ earlier) = not (is_running latest.status)

abbrev WithoutTicket : Db → Db × Option ExecutionTicket → Type 0
WithoutTicket db (db', ticket) = (ticket ≡ none) × IsStopped db db'

cancel-IsStopped :
    (now : ℕ) (db : Db)
    → After (IsStopped db) (
        transition now RemediationStatus.cancelled TimelineEvent.cancelled
          (release now Code.kill_switch db))
unfolding transition
cancel-IsStopped now db =
    elim (Bool-cases (can_transition db.row.status RemediationStatus.cancelled)) [
      | inl allowed ↦ rw (allowed, After) (refl, refl, refl)
      | inr refused ↦ rw (refused, After) tt
    ]

refuse_attempt-IsStopped :
    (now : ℕ) (db : Db) → After (WithoutTicket db) (refuse_attempt now Code.kill_switch db)
unfolding refuse_attempt finish_cancelled
refuse_attempt-IsStopped now db =
    After-bind (IsStopped db) (WithoutTicket db) _ no_ticket (λ db' s. (refl, s))
      (After-bind (IsStopped db) (IsStopped db) _ _
        (λ ended s.
          After-map (Same ended) (IsStopped db) _ (λ db' same. rw (same.0, same.2) s)
            (move_incident-Same now _ _ (emit remediation_cancelled ended)))
        (cancel-IsStopped now db))

attempt_execution-IsStopped :
    (env : Environment) (owner : String) (lease now : ℕ) (db : Db)
    → is_stopped db ≡ true
    → After
        (WithoutTicket db)
        (attempt_execution env owner lease now (get_entry db.row.action_id) db)
unfolding attempt_execution execution_blocker
attempt_execution-IsStopped env owner lease now db stopped =
    rw (stopped, After) (refuse_attempt-IsStopped now db)

claim_with-IsStopped :
    (env : Environment) (owner : String) (lease now : ℕ) (executions : List ExecutionRow) (db : Db)
    → is_stopped db ≡ true
    → is_idle executions ≡ true
    → After (WithoutTicket db) (claim_with env owner lease now executions db)
unfolding claim_with
claim_with-IsStopped env owner lease now [] db stopped idle =
    attempt_execution-IsStopped env owner lease now db stopped
claim_with-IsStopped env owner lease now (latest ∷ earlier) db stopped idle =
    elim (Bool-cases (is_running latest.status)) [
      | inl runs ↦ ground arith
      | inr over ↦ rw (over, After) (attempt_execution-IsStopped env owner lease now db stopped)
    ]

-- With a kill switch engaged for everything or for the target, a claim that would begin an
-- attempt begins none: it gives no ticket and, if it commits, cancels the remediation.
pub claim_execution-IsStopped :
    (env : Environment) (owner : String) (lease now : ℕ) (db db' : Db)
    (ticket : Option ExecutionTicket)
    → is_stopped db ≡ true
    → is_claimable db.row.status ≡ true
    → is_idle db.executions ≡ true
    → claim_execution env owner lease now db ≡ ok (db', ticket)
    → (ticket ≡ none)
      × (db'.row.status ≡ RemediationStatus.cancelled)
      × (db'.row.failure_reason ≡ some Code.kill_switch)
      × (db'.executions ≡ db.executions)
unfolding claim_execution
claim_execution-IsStopped env owner lease now db db' ticket stopped claimable idle h =
    let (none_given, stop) =
      subst (After (WithoutTicket db)) (rw claimable at h)
        (claim_with-IsStopped env owner lease now db.executions db stopped idle) in
    (none_given, stop.0, stop.1, stop.2)
