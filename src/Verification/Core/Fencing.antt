-- ===== src/Verification/Core/Fencing.antt =====
-- packages/incident/verifications.py: leases, claims and the deadline.
use incident_triage.Base.{
  ℕ, ◌+◌, ◌≤◌, ◌<◌, ◌≡◌, refl, true, false, Option, none, some, arith, String, Bool-cases, inl, inr,
  nat_eq, string_eq, option_eq, ==_refl, subst₂, ap, ◌∙◌,
}
use incident_triage.Errors.{Result, ok, ◌>>=◌}
use incident_triage.Verification.Policy.{running, is_terminal}
use incident_triage.Verification.Decision.Cases.{decide-IsTerminal}
use incident_triage.Verification.Rows.{Db}
use incident_triage.Verification.Core.{VerificationTicket, begin, start, finalize, is_running}
use incident_triage.Verification.Core.Polling.{
  deadline_decision, claim_due, claim_running, grant, holds_lease, lease_is_live, is_past_deadline,
  no_ticket, latest_result, time_or,
}
use incident_triage.Verification.Core.Verdict.{finalize-Applies}

-- A claim that hands out a ticket has granted a lease on a running verification.
running_grant :
    (max_attempts : ℕ) (owner : String) (lease now : ℕ) (db db' : Db) (t : VerificationTicket)
    → claim_running max_attempts owner lease now db ≡ ok (db', some t)
    → ((grant owner lease now db).0 ≡ db') × ((grant owner lease now db).1 ≡ t)
unfolding claim_running
running_grant max_attempts owner lease now db db' t e = ground arith

claim_grant :
    (max_attempts : ℕ) (owner : String) (lease now : ℕ) (db db' : Db) (t : VerificationTicket)
    → claim_due max_attempts owner lease now db ≡ ok (db', some t)
    → (is_running (start now db).row.status ≡ true)
      × ((grant owner lease now (start now db)).0 ≡ db')
      × ((grant owner lease now (start now db)).1 ≡ t)
unfolding claim_due
claim_grant max_attempts owner lease now db db' t e =
    elim (Bool-cases (is_running (start now db).row.status)) [
      | inl runs ↦
          let granted =
            running_grant max_attempts owner lease now (start now db) db' t (rw runs at e) in
          (runs, granted.0, granted.1)
      | inr ended ↦ absurd (no_grant (start now db) db' t (rw ended at e))
    ]
  where
    no_grant :
        (db db' : Db) (t : VerificationTicket)
        → ◌≡◌ {A = Result (Db × Option VerificationTicket)} (ok (db, none)) (ok (db', some t))
        → ⊥
    no_grant db db' t e = ground arith

-- What a ticket and the database that it was granted in have to do with each other.
abbrev pub IsExclusive : ℕ → ℕ → Db → Db → VerificationTicket → Type 0
IsExclusive max_attempts expiry db db' t =
    (holds_lease t db'.row ≡ true)
    × (t.spec ≡ db'.row.spec)
    × ((old : VerificationTicket)
        → old.claim_attempt ≤ db.row.claim_attempt
        → holds_lease old db'.row ≡ false)
    × ((other : String) (lease now : ℕ)
        → now < expiry
        → claim_due max_attempts other lease now db' ≡ ok (db', none))

grant-IsExclusive :
    (max_attempts : ℕ) (owner : String) (lease now : ℕ) (db : Db)
    → is_running db.row.status ≡ true
    → let (db', t) = grant owner lease now db in IsExclusive max_attempts (now + lease) db db' t
unfolding grant claim_due claim_running start
grant-IsExclusive max_attempts owner lease now db runs = (
  ground (arith, ==_refl owner),
  refl,
  λ old h. ground arith,
  λ other lease' now' h. ground arith,
)

start-claim_attempt : (now : ℕ) (db : Db) → (start now db).row.claim_attempt ≡ db.row.claim_attempt
unfolding start begin
start-claim_attempt now db = ground arith

-- A ticket holds the lease in the database that it was granted in and carries the row's
-- specification; every ticket of an earlier claim holds it no longer; and until the lease ends
-- no other claim is granted, or changes anything.
pub claim_due-IsExclusive :
    (max_attempts : ℕ) (owner : String) (lease now : ℕ) (db db' : Db) (t : VerificationTicket)
    → claim_due max_attempts owner lease now db ≡ ok (db', some t)
    → IsExclusive max_attempts (now + lease) db db' t
claim_due-IsExclusive max_attempts owner lease now db db' t e =
    let (runs, same_db, same_ticket) = claim_grant max_attempts owner lease now db db' t e in
    let granted = grant owner lease now (start now db) in
    subst₂ (IsExclusive max_attempts (now + lease) db) same_db same_ticket (
      rebase granted.0 granted.1
        (grant-IsExclusive max_attempts owner lease now (start now db) runs))
  where
    rebase :
        (db' : Db) (t : VerificationTicket)
        → IsExclusive max_attempts (now + lease) (start now db) db' t
        → IsExclusive max_attempts (now + lease) db db' t
    rebase db' t x = (x.0, x.1, λ old h. x.2 old (omega (arith, start-claim_attempt now db)), x.3)

claim_due_running :
    (max_attempts : ℕ) (owner : String) (lease now : ℕ) (db : Db)
    → db.row.status ≡ running
    → claim_due max_attempts owner lease now db ≡ claim_running max_attempts owner lease now db
unfolding claim_due start
claim_due_running max_attempts owner lease now db runs = ground arith

claim_running_late :
    (max_attempts : ℕ) (owner : String) (lease now : ℕ) (db : Db)
    → lease_is_live now db.row ≡ false
    → is_past_deadline now db.row ≡ true
    → claim_running max_attempts owner lease now db
      ≡ (finalize max_attempts now (deadline_decision now db) db >>= no_ticket)
unfolding claim_running
claim_running_late max_attempts owner lease now db free late = rw (free, late)

deadline_decision-IsTerminal :
    (now : ℕ) (db : Db)
    → is_past_deadline now db.row ≡ true
    → is_terminal (deadline_decision now db).status ≡ true
unfolding deadline_decision
deadline_decision-IsTerminal now db late =
    decide-IsTerminal db.row.spec (latest_result db) db.row.consecutive_successes
      db.row.conclusive_count now (time_or db.row.deadline_at now) (ground arith)

-- Once the deadline has come and no lease is live, the next claim of a running verification
-- gives it a verdict.
pub deadline_ends :
    (max_attempts : ℕ) (owner : String) (lease now : ℕ) (db : Db) {deadline : ℕ}
    → db.row.status ≡ running
    → db.row.deadline_at ≡ some deadline
    → deadline ≤ now
    → lease_is_live now db.row ≡ false
    → (db' : Db) × (claim_due max_attempts owner lease now db ≡ ok (db', none))
      × (is_terminal db'.row.status ≡ true)
deadline_ends max_attempts owner lease now db {deadline} runs at_deadline on_time free =
    let decision = deadline_decision now db in
    let late : is_past_deadline now db.row ≡ true = ground arith in
    let (db', commits, status, applies) = finalize-Applies max_attempts now decision db in
    (
      db',
      claim_due_running max_attempts owner lease now db runs
          ∙ claim_running_late max_attempts owner lease now db free late
          ∙ ap (λ r. r >>= no_ticket) commits,
      rw status (deadline_decision-IsTerminal now db late),
    )
