-- ===== src/Verification/Core/Verdict.antt =====
-- packages/incident/verifications.py: what a verdict does to the incident.
use incident_triage.Base.{
  ℕ, ◌+◌, ◌<◌, ◌≡◌, refl, ◌⊎◌, false, ◌&&◌, Option, none, some, arith, Bool-cases, inl, inr, any,
  ltb, subst, nat_eq, option_eq,
}
use incident_triage.Errors.{ok}
use incident_triage.Incident.Status.{
  IncidentStatus, incident_status_eq, verifying, resolved, escalated, verification_failed,
}
use incident_triage.Incident.Row.{transition_incident_status, count_firing_alerts}
use incident_triage.Remediation.Status.{remediation_status_eq, executed}
use incident_triage.Verification.Policy.{VerificationStatus, passed, failed, timed_out}
use incident_triage.Verification.Decision.{Decision}
use incident_triage.Verification.Rows.{
  NextAction, no_action, resolve, escalate, reinvestigate, Staleness, Db, Change,
  incident_status_changed,
}
use incident_triage.Verification.Core.Streak.{Settles, finalize-Settles}
use incident_triage.Verification.Core.{
  staleness, move_incident, apply_failure, apply_verdict, settle, apply_unless_stale, finalize,
  emit, set_next_action, close_resolved, close_escalated, announce,
}

-- A verdict may be applied: the incident still verifies this remediation, which was executed,
-- whose verification this is, and which is the newest.
abbrev pub IsFresh : Db → Type 0
IsFresh db =
    (db.incident.status ≡ verifying)
    × (db.remediation.status ≡ executed)
    × (db.remediation.verification_ref ≡ some db.row.id)
    × (any (λ created_at. ltb db.remediation.created_at created_at) db.remediations ≡ false)

staleness-IsFresh : (db : Db) → staleness db ≡ none → IsFresh db
unfolding staleness
staleness-IsFresh db e = ground arith

-- What becomes of the incident under a verdict that is applied.
abbrev pub Outcome : ℕ → Db → VerificationStatus → IncidentStatus → Option NextAction → Type 0
Outcome max_attempts db passed s a = (s ≡ resolved) × (a ≡ some resolve)
Outcome max_attempts db timed_out s a = (s ≡ escalated) × (a ≡ some escalate)
Outcome max_attempts db _ s a =
    ((s ≡ verification_failed)
      × (a ≡ some reinvestigate)
      × (db.incident.attempt_count < max_attempts)
      × (0 < count_firing_alerts db.alerts))
    ⊎ ((s ≡ escalated)
        × (a ≡ some escalate)
        × (db.incident.attempt_count < max_attempts → count_firing_alerts db.alerts ≡ 0))

-- The database after a verdict.
abbrev pub Applies : ℕ → Db → VerificationStatus → Db → Type 0
Applies max_attempts db status db' =
    (IsFresh db × Outcome max_attempts db status db'.incident.status db'.row.next_action)
    ⊎ ((db'.incident ≡ db.incident) × (db'.row.next_action ≡ some no_action) × (¬ IsFresh db))

-- The database after the incident has moved; its lock makes sure that it does.
abbrev moved : ℕ → IncidentStatus → Change → Db → Db
moved now to_status reason db =
    emit (incident_status_changed db.incident.status to_status reason (db.incident.version + 1))
      (record db {
        incident = record (db.incident) {
          status = to_status;
          version = db.incident.version + 1;
          updated_at = now;
        };
      })

move_incident_lem :
    (now : ℕ) (to_status : IncidentStatus) (reason : Change) (db : Db)
    → move_incident now to_status reason db ≡ ok (moved now to_status reason db)
unfolding move_incident transition_incident_status
move_incident_lem now to_status reason db = ground arith

apply_failure-Outcome :
    (max_attempts now : ℕ) (db : Db)
    → (db' : Db) × (apply_failure max_attempts now db ≡ ok db')
      × Outcome max_attempts db failed db'.incident.status db'.row.next_action
unfolding apply_failure
apply_failure-Outcome max_attempts now db =
    let failing = moved now verification_failed Change.verification_failed db in
    elim (Bool-cases
      (ltb db.incident.attempt_count max_attempts && ltb 0 (count_firing_alerts db.alerts))) [
        | inl again ↦ (
          set_next_action reinvestigate failing,
          rw (move_incident_lem now verification_failed Change.verification_failed db, again),
          inl (ground arith),
        )
        | inr over ↦
            let escalating = set_next_action escalate failing in
            (
              close_escalated (moved now escalated Change.verification_failed escalating),
              rw (
                move_incident_lem now verification_failed Change.verification_failed db,
                over,
                move_incident_lem now escalated Change.verification_failed escalating,
              ),
              inr (ground arith),
            )
      ]

apply_verdict-Outcome :
    (max_attempts now : ℕ) (status : VerificationStatus) (db : Db)
    → (db' : Db) × (apply_verdict max_attempts now status db ≡ ok db')
      × Outcome max_attempts db status db'.incident.status db'.row.next_action
unfolding apply_verdict
apply_verdict-Outcome max_attempts now passed db =
    let resolving = set_next_action resolve db in
    (
      close_resolved (moved now resolved Change.verification_passed resolving),
      rw (move_incident_lem now resolved Change.verification_passed resolving),
      (refl, refl),
    )
apply_verdict-Outcome max_attempts now timed_out db =
    let escalating = set_next_action escalate db in
    (
      close_escalated (moved now escalated Change.verification_timed_out escalating),
      rw (move_incident_lem now escalated Change.verification_timed_out escalating),
      (refl, refl),
    )
apply_verdict-Outcome max_attempts now status db = apply_failure-Outcome max_attempts now db

fresh-staleness : (db : Db) → IsFresh db → staleness db ≡ none
unfolding staleness
fresh-staleness db f = ground arith

apply_unless_stale-Applies :
    (max_attempts now : ℕ) (status : VerificationStatus) (db : Db) (stale : Option Staleness)
    → staleness db ≡ stale
    → (db' : Db) × (apply_unless_stale max_attempts now status stale db ≡ ok db')
      × Applies max_attempts db status db'
unfolding apply_unless_stale
apply_unless_stale-Applies max_attempts now status db none e =
    let (applied, eq, outcome) = apply_verdict-Outcome max_attempts now status db in
    (announce applied, rw eq, inl (staleness-IsFresh db e, outcome))
apply_unless_stale-Applies max_attempts now status db (some s) e = (
  announce
      (record db { row = record (db.row) { next_action = some no_action; not_applied = some s } }),
  refl,
  inr (refl, refl, λ f. cc (e, fresh-staleness db f)),
)

-- A verdict always commits. It moves the incident only while the incident verifies this
-- remediation, executed, with this verification and no newer remediation: passed resolves it,
-- timed out escalates it, and failed sends it back for an investigation if attempts are left and
-- an alert still fires, and escalates it if not. Otherwise the incident stays as it is.
pub finalize-Applies :
    (max_attempts now : ℕ) (decision : Decision) (db : Db)
    → (db' : Db) × (finalize max_attempts now decision db ≡ ok db')
      × (db'.row.status ≡ decision.status)
      × Applies max_attempts db decision.status db'
unfolding finalize settle
finalize-Applies max_attempts now decision db =
    let settled : Db = record db { row = settle now decision db.row } in
    let (db', eq, applies) =
      apply_unless_stale-Applies max_attempts now decision.status settled (staleness settled)
        refl in
    (
      db',
      eq,
      (subst (Settles decision db) eq (finalize-Settles max_attempts now decision db)).2,
      applies,
    )
