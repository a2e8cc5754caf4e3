-- ===== src/Verification/Core/Reachable.antt =====
-- packages/incident/verifications.py: a verification over any sequence of polls by any workers,
-- with the incident, its alerts, its remediations and the registered evidence changed by others in
-- between.
use incident_triage.Base.{
  ℕ, ◌≤◌, ◌≡◌, true, Option, some, List, [], subst, length, ap, &&-true, nat_eq, string_eq,
  option_eq, ◌==◌, arith, String, Bool-cases, inl, inr,
}
use incident_triage.Builtins.{Builtins}
use incident_triage.Errors.{ok}
use incident_triage.Incident.Row.{IncidentRow, AlertRow}
use incident_triage.Verification.Policy.{pending, passed, timed_out}
use incident_triage.Verification.Sample.{Sample, ObservationResult, evaluate_sample}
use incident_triage.Verification.Decision.Cases.{decide_iff}
use incident_triage.Verification.Rows.{VerificationRow, VerifiedRemediation, Db}
use incident_triage.Verification.Core.{VerificationTicket, start, finalize, is_running}
use incident_triage.Verification.Core.Polling.{
  claim_due, observe, conclude_poll, record_observation, observation_decision, new_firing_alerts,
  holds_lease, time_or, are_linkable,
}
use incident_triage.Verification.Core.Streak.{
  passing_run, conclusive_observations, IsValid, IsValidAfter, IsValidAfterClaim, Settles-IsValid,
  finalize-Settles, start-IsValid, claim_due-IsValid,
}

observe-IsValid :
    (ticket : VerificationTicket) (result : ObservationResult) (sample : Sample)
    (evidence_ids : List ℕ) (observed_at now : ℕ) (db : Db)
    → is_running db.row.status ≡ true
    → IsValid db
    → IsValid (observe ticket result sample evidence_ids observed_at now db)
unfolding observe
observe-IsValid ticket result sample evidence_ids observed_at now db runs v = ground arith

conclude_poll-IsValid :
    (max_attempts now : ℕ) (ticket : VerificationTicket) (result : ObservationResult) (db : Db)
    → ticket.spec ≡ db.row.spec
    → IsValid db
    → IsValidAfter (conclude_poll max_attempts now (observation_decision ticket result now db) db)
unfolding conclude_poll
conclude_poll-IsValid max_attempts now ticket result db same v =
    let decision = observation_decision ticket result now db in
    let reached =
      decide_iff ticket.spec (some result) db.row.consecutive_successes db.row.conclusive_count now
        (time_or db.row.deadline_at now) in
    elim (Bool-cases (is_running decision.status)) [
      | inl runs ↦ rw (runs, IsValidAfter) v
      | inr ends ↦
          rw (ends, IsValidAfter)
            (Settles-IsValid decision db (finalize max_attempts now decision db)
              (finalize-Settles max_attempts now decision db) v
              (λ e.
                omega (
                  arith,
                  ((reached passed).0 e).1,
                  v.streak,
                  ap (λ s. s.required_consecutive) same,
                ))
              (λ e. omega (arith, ((reached timed_out).0 e).3, v.conclusive)))
    ]

pub holds_lease-running :
    (ticket : VerificationTicket) (row : VerificationRow)
    → holds_lease ticket row ≡ true
    → is_running row.status ≡ true
holds_lease-running ticket row h =
    (&&-true (is_running row.status) (row.lease_owner == some ticket.owner)
      (&&-true _ (row.claim_attempt == ticket.claim_attempt) h).0).0

record_observation-IsValid :
    (py : Builtins) (max_attempts : ℕ) (ticket : VerificationTicket) (sample : Sample)
    (evidence_ids : List ℕ) (observed_at now : ℕ) (db : Db)
    → ticket.spec ≡ db.row.spec
    → IsValid db
    → IsValidAfter
        (record_observation py max_attempts ticket sample evidence_ids observed_at now db)
unfolding record_observation
record_observation-IsValid py max_attempts ticket sample evidence_ids observed_at now db same v =
    elim (Bool-cases (holds_lease ticket db.row)) [
      | inl holds ↦
          elim (Bool-cases (are_linkable evidence_ids db.evidence_links db.evidence_refs)) [
            | inr refused ↦ rw (holds, refused, IsValidAfter) tt
            | inl linkable ↦
                let seen : Sample = record sample {
                  new_firing_alerts = some (new_firing_alerts db);
                } in
                let result = evaluate_sample py ticket.spec seen in
                rw (holds, linkable, IsValidAfter)
                  (conclude_poll-IsValid max_attempts now ticket result
                    (observe ticket result seen evidence_ids observed_at now db)
                    (unfold observe in same)
                    (observe-IsValid ticket result seen evidence_ids observed_at now db
                      (holds_lease-running ticket db.row holds) v))
          ]
      | inr lost ↦ rw (lost, IsValidAfter) tt
    ]

-- One command, or a change that others make to the incident, its alerts, its
-- remediations or the registered evidence.
module _ (py : Builtins) (max_attempts : ℕ) where
  pub data Step : Db → Db → Type 0 where
    started : (now : ℕ) (db : Db) → Step db (start now db)
    claimed :
        (owner : String) (lease now : ℕ) (db db' : Db) (ticket : Option VerificationTicket)
        → claim_due max_attempts owner lease now db ≡ ok (db', ticket)
        → Step db db'
    recorded :
        (ticket : VerificationTicket) (sample : Sample) (evidence_ids : List ℕ)
        (observed_at now : ℕ) (db db' : Db)
        → ticket.spec ≡ db.row.spec
        → record_observation py max_attempts ticket sample evidence_ids observed_at now db ≡ ok db'
        → Step db db'
    others_changed :
        (incident : IncidentRow) (alerts : List AlertRow) (remediation : VerifiedRemediation)
        (remediations : List ℕ) (evidence_refs : List ℕ) (db : Db)
        → Step db (record db {
          incident = incident;
          alerts = alerts;
          remediation = remediation;
          remediations = remediations;
          evidence_refs = evidence_refs;
        })

  pub data Reach (db : Db) : Db → Type 0 where
    here : Reach db db
    next : {db' db'' : Db} → Reach db db' → Step db' db'' → Reach db db''

  Step-IsValid : {db db' : Db} → Step db db' → IsValid db → IsValid db'
  Step-IsValid (started now db) v = start-IsValid now db v
  Step-IsValid (claimed owner lease now db db' ticket e) v =
      subst IsValidAfterClaim e (claim_due-IsValid max_attempts owner lease now db v)
  Step-IsValid (recorded ticket sample evidence_ids observed_at now db db' same e) v =
      subst IsValidAfter e (
        record_observation-IsValid py max_attempts ticket sample evidence_ids observed_at now db
          same v)
  Step-IsValid (others_changed incident alerts remediation remediations evidence_refs db) v = v

  -- A verification as `_request_verification` creates it.
  pub record IsNew (db : Db) : Type 0 where
    pub is_pending : db.row.status ≡ pending
    pub no_observations : db.observations ≡ []
    pub none_counted : db.row.observation_count ≡ 0
    pub no_streak : db.row.consecutive_successes ≡ 0
    pub none_conclusive : db.row.conclusive_count ≡ 0

  IsNew-IsValid : (db : Db) → IsNew db → IsValid db
  IsNew-IsValid db n = ground (
    arith,
    ap length n.no_observations,
    ap passing_run n.no_observations,
    ap conclusive_observations n.no_observations,
  )

  Reach-IsValid : {db db' : Db} → IsNew db → Reach db db' → IsValid db'
  Reach-IsValid {db} n here = IsNew-IsValid db n
  Reach-IsValid n (next r s) = Step-IsValid s (Reach-IsValid n r)

  -- From a new verification, however the workers poll and whatever others change, with tickets
  -- that carry the row's specification: one that has passed has the required number of passing
  -- observations in a row, the newest ones; one that timed out never had a conclusive
  -- observation; and the row counts its observations.
  pub passed_needs_streak :
      {db db' : Db}
      → IsNew db
      → Reach db db'
      → (db'.row.status ≡ passed → db'.row.spec.required_consecutive ≤ passing_run db'.observations)
        × (db'.row.status ≡ timed_out → conclusive_observations db'.observations ≡ 0)
        × (db'.row.observation_count ≡ length db'.observations)
  passed_needs_streak n r =
      let v = Reach-IsValid n r in (v.passed_enough, v.inconclusive, v.counted)
