-- ===== src/Remediation/Core/Attempts.antt =====
-- packages/incident/remediations.py: the attempts at an execution keep a remediation safe, and
-- are made only when nothing blocks them.
use incident_triage.Base.{
  ℕ, ◌<◌, ◌≡◌, ◌≢◌, refl, true, false, Option, none, some, List, [], ◌∷◌, arith, String, Bool-cases,
  Option-cases, inl, inr, length, contains, is_some, string_eq, ap,
}
use incident_triage.Errors.{Result, ok, err, ◌>>=◌, After}
use incident_triage.Remediation.Status.{remediation_status_eq}
use incident_triage.Remediation.Catalog.{ActionCatalogEntry, validate, get_entry}
use incident_triage.Remediation.Rows.{ExecutionRow, Code, Scope, Db}
use incident_triage.Remediation.Core.{transition}
use incident_triage.Remediation.Core.Execution.{
  Environment, ExecutionTicket, execution_blocker, is_engaged, approval_binds, interrupt,
  begin_attempt, refuse_attempt, attempt_execution, claim_with, claim_execution, is_claimable,
  is_running, lease_is_live, is_kill_switch, no_ticket,
}
use incident_triage.Remediation.Core.Safety.{IsSafe, finish_failed-IsSafe, finish_cancelled-IsSafe}
use incident_triage.Policy.{catalog_version}

-- Everything that is checked again before an attempt.
pub record IsCleared (env : Environment) (db : Db) (e : ActionCatalogEntry) : Type 0 where
  pub not_stopped : is_engaged Scope.global db.engaged_scopes ≡ false
  pub service_not_stopped :
      is_engaged (Scope.service db.row.target_service) db.engaged_scopes ≡ false
  pub approved : approval_binds db.approval db.row ≡ true
  pub current : db.row.catalog_version ≡ catalog_version
  pub valid : is_some (validate env.validator e db.row.parameters) ≡ true
  pub known_target : contains env.services db.row.target_service ≡ true
  pub attempts_left : db.row.execution_attempts < e.max_attempts

pub blocker-IsCleared :
    (env : Environment) (db : Db) (e : ActionCatalogEntry)
    → execution_blocker env db (some e) ≡ none
    → IsCleared env db e
unfolding execution_blocker
blocker-IsCleared env db e h =
    ground (arith, string_eq.beq_iff db.row.catalog_version catalog_version)

blocked_without_entry : (env : Environment) (db : Db) → execution_blocker env db none ≢ none
unfolding execution_blocker
blocked_without_entry env db h = ground arith

abbrev pub IsSafeClaim : Db × Option ExecutionTicket → Type 0
IsSafeClaim (db, t) = IsSafe db

interrupt-IsSafe :
    (owner : String) (lease now : ℕ) (latest : ExecutionRow) (earlier : List ExecutionRow) (db : Db)
    → db.executions ≡ latest ∷ earlier
    → IsSafe db
    → IsSafe (interrupt owner lease now latest earlier db).0
unfolding interrupt
interrupt-IsSafe owner lease now latest earlier db e v = ground (arith, ap length e)

begin_attempt-IsSafe :
    (env : Environment) (owner : String) (lease now : ℕ) (e : ActionCatalogEntry) (db : Db)
    → get_entry db.row.action_id ≡ some e
    → IsCleared env db e
    → IsSafe db
    → After IsSafeClaim (begin_attempt owner lease now e db)
unfolding begin_attempt transition
begin_attempt-IsSafe env owner lease now e db known clear v = ground arith

no_ticket-IsSafe : (r : Result Db) → After IsSafe r → After IsSafeClaim (r >>= no_ticket)
no_ticket-IsSafe (ok db) v = v
no_ticket-IsSafe (err e) v = tt

refuse_attempt-IsSafe :
    (now : ℕ) (code : Code) (db : Db) → IsSafe db → After IsSafeClaim (refuse_attempt now code db)
unfolding refuse_attempt
refuse_attempt-IsSafe now code db v = elim (Bool-cases (is_kill_switch code)) [
  | inl stopped ↦
      rw (stopped, After) (no_ticket-IsSafe _ (finish_cancelled-IsSafe now _ _ _ _ db v))
  | inr failed ↦ rw (failed, After) (no_ticket-IsSafe _ (finish_failed-IsSafe now code db v))
]

attempt_execution-IsSafe :
    (env : Environment) (owner : String) (lease now : ℕ) (entry : Option ActionCatalogEntry)
    (db : Db)
    → get_entry db.row.action_id ≡ entry
    → IsSafe db
    → After IsSafeClaim (attempt_execution env owner lease now entry db)
unfolding attempt_execution
attempt_execution-IsSafe env owner lease now none db known v =
    elim (Option-cases (execution_blocker env db none)) [
      | inl free ↦ rw (free, After) tt
      | inr (code, blocked) ↦ rw (blocked, After) (refuse_attempt-IsSafe now code db v)
    ]
attempt_execution-IsSafe env owner lease now (some e) db known v =
    elim (Option-cases (execution_blocker env db (some e))) [
      | inl free ↦
          rw (free, After)
            (begin_attempt-IsSafe env owner lease now e db known (blocker-IsCleared env db e free)
              v)
      | inr (code, blocked) ↦ rw (blocked, After) (refuse_attempt-IsSafe now code db v)
    ]

claim_with-IsSafe :
    (env : Environment) (owner : String) (lease now : ℕ) (executions : List ExecutionRow) (db : Db)
    → db.executions ≡ executions
    → IsSafe db
    → After IsSafeClaim (claim_with env owner lease now executions db)
unfolding claim_with
claim_with-IsSafe env owner lease now [] db e v =
    attempt_execution-IsSafe env owner lease now (get_entry db.row.action_id) db refl v
claim_with-IsSafe env owner lease now (latest ∷ earlier) db e v =
    elim (Bool-cases (is_running latest.status)) [
      | inr over ↦
          rw (over, After)
            (attempt_execution-IsSafe env owner lease now (get_entry db.row.action_id) db refl v)
      | inl runs ↦ elim (Bool-cases (lease_is_live now db.row)) [
        | inl held ↦ rw (runs, held, After) v
        | inr lapsed ↦
            rw (runs, lapsed, After) (interrupt-IsSafe owner lease now latest earlier db e v)
      ]
    ]

pub claim_execution-IsSafe :
    (env : Environment) (owner : String) (lease now : ℕ) (db : Db)
    → IsSafe db
    → After IsSafeClaim (claim_execution env owner lease now db)
unfolding claim_execution
claim_execution-IsSafe env owner lease now db v = elim (Bool-cases (is_claimable db.row.status)) [
  | inl allowed ↦
      rw (allowed, After) (claim_with-IsSafe env owner lease now db.executions db refl v)
  | inr refused ↦ rw (refused, After) v
]
