-- ===== src/Verification/Core/Streak.antt =====
-- packages/incident/verifications.py: the counters of a verification agree with its recorded
-- observations, over any sequence of commands and of changes made by others.
use incident_triage.Base.{
  ℕ, suc, ◌+◌, ◌≤◌, ◌≡◌, Option, none, some, List, [], ◌∷◌, arith, String, Bool-cases, inl, inr, ap,
  length, if◌then◌else◌,
}
use incident_triage.Errors.{Result, ok, err, ◌>>=◌}
use incident_triage.Incident.Row.{transition_incident_status}
use incident_triage.Verification.Policy.{VerificationStatus, passed, timed_out}
use incident_triage.Verification.Decision.{Decision}
use incident_triage.Verification.Decision.Cases.{decide_iff}
use incident_triage.Verification.Rows.{Staleness, ObservationRow, VerificationRow, Db}
use incident_triage.Verification.Core.{
  VerificationTicket, begin, start, staleness, move_incident, apply_verdict, settle, finalize,
  is_running, apply_failure, apply_unless_stale, announce,
}
use incident_triage.Verification.Core.Polling.{
  deadline_decision, grant, claim_running, claim_due, latest_result, time_or, lease_is_live,
  is_past_deadline, is_before_poll, no_ticket,
}

-- The length of the run of passing observations that ends with the newest one.
abbrev pub passing_run : List ObservationRow → ℕ
passing_run [] = 0
passing_run (o ∷ os) = let rest = passing_run os in if o.passed then suc rest else 0

abbrev pub conclusive_observations : List ObservationRow → ℕ
conclusive_observations [] = 0
conclusive_observations (o ∷ os) = conclusive_observations os + (if o.conclusive then 1 else 0)

pub record IsCounted (row : VerificationRow) (os : List ObservationRow) : Type 0 where
  pub counted : row.observation_count ≡ length os
  pub streak : row.consecutive_successes ≡ passing_run os
  pub conclusive : row.conclusive_count ≡ conclusive_observations os
  pub passed_enough : row.status ≡ passed → row.spec.required_consecutive ≤ passing_run os
  pub inconclusive : row.status ≡ timed_out → conclusive_observations os ≡ 0

abbrev pub IsValid : Db → Type 0
IsValid db = IsCounted db.row db.observations

abbrev pub IsValidAfter : Result Db → Type 0
IsValidAfter (err e) = Unit
IsValidAfter (ok db) = IsValid db

-- `finalize` sets the status, ends the lease and keeps the counters, the observations and the
-- evidence links.
abbrev pub Settles : Decision → Db → Result Db → Type 0
Settles decision db (err e) = Unit
Settles decision db (ok db') =
    (db'.observations ≡ db.observations)
    × (db'.row.spec ≡ db.row.spec)
    × (db'.row.status ≡ decision.status)
    × (db'.row.observation_count ≡ db.row.observation_count)
    × (db'.row.consecutive_successes ≡ db.row.consecutive_successes)
    × (db'.row.conclusive_count ≡ db.row.conclusive_count)
    × (db'.evidence_links ≡ db.evidence_links)
    × (db'.row.lease_owner ≡ none)
    × (db'.row.lease_expires_at ≡ none)

abbrev pub Keeps : Db → Result Db → Type 0
Keeps db (err e) = Unit
Keeps db (ok db') =
    (db'.observations ≡ db.observations)
    × (db'.row.spec ≡ db.row.spec)
    × (db'.row.status ≡ db.row.status)
    × (db'.row.observation_count ≡ db.row.observation_count)
    × (db'.row.consecutive_successes ≡ db.row.consecutive_successes)
    × (db'.row.conclusive_count ≡ db.row.conclusive_count)
    × (db'.evidence_links ≡ db.evidence_links)
    × (db'.row.lease_owner ≡ db.row.lease_owner)
    × (db'.row.lease_expires_at ≡ db.row.lease_expires_at)

apply_verdict-Keeps :
    (max_attempts now : ℕ) (s : VerificationStatus) (db : Db)
    → Keeps db (apply_verdict max_attempts now s db)
unfolding apply_verdict apply_failure move_incident transition_incident_status
apply_verdict-Keeps max_attempts now passed db = ground arith
apply_verdict-Keeps max_attempts now timed_out db = ground arith
apply_verdict-Keeps max_attempts now _ db = ground arith

announce-Settles :
    (decision : Decision) (db settled : Db) (r : Result Db)
    → Settles decision db (ok settled)
    → Keeps settled r
    → Settles decision db (r >>= λ applied. ok (announce applied))
announce-Settles decision db settled (err e) h k = tt
announce-Settles decision db settled (ok applied) h k = ground arith

apply_unless_stale-Settles :
    (max_attempts now : ℕ) (decision : Decision) (db settled : Db) (stale : Option Staleness)
    → Settles decision db (ok settled)
    → Settles decision db (apply_unless_stale max_attempts now decision.status stale settled)
unfolding apply_unless_stale
apply_unless_stale-Settles max_attempts now decision db settled (some s) h = ground arith
apply_unless_stale-Settles max_attempts now decision db settled none h =
    announce-Settles decision db settled (apply_verdict max_attempts now decision.status settled) h
      (apply_verdict-Keeps max_attempts now decision.status settled)

pub finalize-Settles :
    (max_attempts now : ℕ) (decision : Decision) (db : Db)
    → Settles decision db (finalize max_attempts now decision db)
unfolding finalize settle
finalize-Settles max_attempts now decision db =
    let settled : Db = record db { row = settle now decision db.row } in
    apply_unless_stale-Settles max_attempts now decision db settled (staleness settled)
      (ground arith)

-- A verdict on counted observations leaves a counted row.
pub Settles-IsValid :
    (decision : Decision) (db : Db) (r : Result Db)
    → Settles decision db r
    → IsValid db
    → (decision.status ≡ passed → db.row.spec.required_consecutive ≤ passing_run db.observations)
    → (decision.status ≡ timed_out → conclusive_observations db.observations ≡ 0)
    → IsValidAfter r
Settles-IsValid decision db (err e) h v p q = tt
Settles-IsValid decision db (ok db') h v p q =
    ground (arith, ap length h.0, ap passing_run h.0, ap conclusive_observations h.0)

pub start-IsValid : (now : ℕ) (db : Db) → IsValid db → IsValid (start now db)
unfolding start begin
start-IsValid now db v = ground arith

abbrev pub IsValidAfterClaim : Result (Db × Option VerificationTicket) → Type 0
IsValidAfterClaim (err e) = Unit
IsValidAfterClaim (ok (db, t)) = IsValid db

deadline-IsValid :
    (max_attempts now : ℕ) (db : Db)
    → IsValid db
    → IsValidAfter (finalize max_attempts now (deadline_decision now db) db)
unfolding deadline_decision
deadline-IsValid max_attempts now db v =
    let decision = deadline_decision now db in
    let reached =
      decide_iff db.row.spec (latest_result db) db.row.consecutive_successes db.row.conclusive_count
        now (time_or db.row.deadline_at now) in
    Settles-IsValid decision db (finalize max_attempts now decision db)
      (finalize-Settles max_attempts now decision db) v
      (λ e. omega (arith, ((reached passed).0 e).1, v.streak))
      (λ e. omega (arith, ((reached timed_out).0 e).3, v.conclusive))

no_ticket-IsValid : (r : Result Db) → IsValidAfter r → IsValidAfterClaim (r >>= no_ticket)
no_ticket-IsValid (err e) h = tt
no_ticket-IsValid (ok db) h = h

grant-IsValid :
    (owner : String) (lease now : ℕ) (db : Db) → IsValid db → IsValid (grant owner lease now db).0
unfolding grant
grant-IsValid owner lease now db v = ground arith

claim_running-IsValid :
    (max_attempts : ℕ) (owner : String) (lease now : ℕ) (db : Db)
    → IsValid db
    → IsValidAfterClaim (claim_running max_attempts owner lease now db)
unfolding claim_running
claim_running-IsValid max_attempts owner lease now db v =
    elim (Bool-cases (lease_is_live now db.row)) [
      | inl held ↦ rw (held, IsValidAfterClaim) v
      | inr free ↦ elim (Bool-cases (is_past_deadline now db.row)) [
        | inl late ↦
            rw (free, late, IsValidAfterClaim)
              (no_ticket-IsValid (finalize max_attempts now (deadline_decision now db) db)
                (deadline-IsValid max_attempts now db v))
        | inr early ↦ elim (Bool-cases (is_before_poll now db.row)) [
          | inl waits ↦ rw (free, early, waits, IsValidAfterClaim) v
          | inr due ↦ rw (free, early, due, IsValidAfterClaim) (grant-IsValid owner lease now db v)
        ]
      ]
    ]

pub claim_due-IsValid :
    (max_attempts : ℕ) (owner : String) (lease now : ℕ) (db : Db)
    → IsValid db
    → IsValidAfterClaim (claim_due max_attempts owner lease now db)
unfolding claim_due
claim_due-IsValid max_attempts owner lease now db v =
    elim (Bool-cases (is_running (start now db).row.status)) [
      | inl runs ↦
          rw (runs, IsValidAfterClaim)
            (claim_running-IsValid max_attempts owner lease now (start now db)
              (start-IsValid now db v))
      | inr ended ↦ rw (ended, IsValidAfterClaim) (start-IsValid now db v)
    ]
