-- ===== src/Remediation/Core/Guards.antt =====
-- packages/incident/remediations.py: what a command has checked when it succeeds.
use incident_triage.Base.{
  ℕ, ◌≡◌, refl, Option, none, some, List, [], ◌∷◌, arith, String, subst, Bool-cases, Option-cases,
  inl, inr, string_eq, option_eq, nat_eq, suc,
}
use incident_triage.Errors.{After, Result, ok, err, ◌>>=◌}
use incident_triage.Incident.Status.{incident_status_eq}
use incident_triage.Remediation.Status.{RemediationStatus, remediation_status_eq, can_transition}
use incident_triage.Remediation.Catalog.{ActionCatalogEntry, get_entry}
use incident_triage.Remediation.Rows.{ExecutionRow, Db}
use incident_triage.Remediation.Core.{transition}
use incident_triage.Remediation.Core.Execution.{
  Environment, ExecutionTicket, execute, claim_execution, claim_with, attempt_execution,
  begin_attempt, refuse_attempt, execution_blocker, interrupt, is_claimable, is_running,
  lease_is_live, no_ticket,
}
use incident_triage.Remediation.Core.Attempts.{IsCleared, blocker-IsCleared}

-- What a ticket to execute rests on.
abbrev pub IsAuthorised : Environment → Db → Db × Option ExecutionTicket → Type 0
IsAuthorised env db (db', none) = Unit
IsAuthorised env db (db', some t) =
    t.mode ≡ execute
    → (e : ActionCatalogEntry) × (get_entry db.row.action_id ≡ some e)
      × IsCleared env db e
      × (db'.row.execution_attempts ≡ suc db.row.execution_attempts)
      × (db'.row.status ≡ RemediationStatus.executing)

begin_attempt-IsAuthorised :
    (env : Environment) (owner : String) (lease now : ℕ) (e : ActionCatalogEntry) (db : Db)
    → get_entry db.row.action_id ≡ some e
    → IsCleared env db e
    → After (IsAuthorised env db) (begin_attempt owner lease now e db)
unfolding begin_attempt transition
begin_attempt-IsAuthorised env owner lease now e db known clear =
    elim (Bool-cases (can_transition db.row.status RemediationStatus.executing)) [
      | inl allowed ↦ rw (allowed, After) (λ mode. (e, known, clear, omega arith, refl))
      | inr refused ↦ rw (refused, After) tt
    ]

refused-IsAuthorised :
    (env : Environment) (db : Db) (r : Result Db) → After (IsAuthorised env db) (r >>= no_ticket)
refused-IsAuthorised env db (ok db') = tt
refused-IsAuthorised env db (err e) = tt

attempt-IsAuthorised :
    (env : Environment) (owner : String) (lease now : ℕ) (entry : Option ActionCatalogEntry)
    (db : Db)
    → get_entry db.row.action_id ≡ entry
    → After (IsAuthorised env db) (attempt_execution env owner lease now entry db)
unfolding attempt_execution refuse_attempt
attempt-IsAuthorised env owner lease now none db known =
    elim (Option-cases (execution_blocker env db none)) [
      | inl free ↦ rw (free, After) tt
      | inr (code, blocked) ↦ rw (blocked, After) (refused-IsAuthorised env db _)
    ]
attempt-IsAuthorised env owner lease now (some e) db known =
    elim (Option-cases (execution_blocker env db (some e))) [
      | inl free ↦
          rw (free, After)
            (begin_attempt-IsAuthorised env owner lease now e db known
              (blocker-IsCleared env db e free))
      | inr (code, blocked) ↦ rw (blocked, After) (refused-IsAuthorised env db _)
    ]

claim_with-IsAuthorised :
    (env : Environment) (owner : String) (lease now : ℕ) (executions : List ExecutionRow) (db : Db)
    → After (IsAuthorised env db) (claim_with env owner lease now executions db)
unfolding claim_with interrupt
claim_with-IsAuthorised env owner lease now [] db =
    attempt-IsAuthorised env owner lease now (get_entry db.row.action_id) db refl
claim_with-IsAuthorised env owner lease now (latest ∷ earlier) db =
    elim (Bool-cases (is_running latest.status)) [
      | inr over ↦
          rw (over, After)
            (attempt-IsAuthorised env owner lease now (get_entry db.row.action_id) db refl)
      | inl runs ↦ elim (Bool-cases (lease_is_live now db.row)) [
        | inl held ↦ rw (runs, held, After) tt
        | inr lapsed ↦ rw (runs, lapsed, After) (λ mode. cc)
      ]
    ]

-- A ticket to execute is given only for an action of the current catalog with valid parameters
-- and a known target, under an approval of this exact proposal, with no kill switch engaged and
-- an attempt left, which the ticket uses up.
pub claim_execution-IsAuthorised :
    (env : Environment) (owner : String) (lease now : ℕ) (db db' : Db) (t : ExecutionTicket)
    → claim_execution env owner lease now db ≡ ok (db', some t)
    → t.mode ≡ execute
    → (e : ActionCatalogEntry) × (get_entry db.row.action_id ≡ some e)
      × IsCleared env db e
      × (db'.row.execution_attempts ≡ suc db.row.execution_attempts)
      × (db'.row.status ≡ RemediationStatus.executing)
unfolding claim_execution
claim_execution-IsAuthorised env owner lease now db db' t h =
    elim (Bool-cases (is_claimable db.row.status)) [
      | inl allowed ↦
          subst (After (IsAuthorised env db)) (rw allowed at h)
            (claim_with-IsAuthorised env owner lease now db.executions db)
      | inr refused ↦ absurd (no_claim db db' t (rw refused at h))
    ]
  where
    no_claim :
        (db db' : Db) (t : ExecutionTicket)
        → ◌≡◌ {A = Result (Db × Option ExecutionTicket)} (ok (db, none)) (ok (db', some t))
        → ⊥
    no_claim db db' t e = ground arith
