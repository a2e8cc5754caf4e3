-- ===== src/Verification/Core/Absorbing.antt =====
-- packages/incident/verifications.py: a verification after its verdict.
use incident_triage.Base.{
  ℕ, ◌≡◌, refl, true, false, none, List, arith, String, nat_eq, string_eq, option_eq, ap, ◌∙◌,
}
use incident_triage.Builtins.{Builtins}
use incident_triage.Errors.{ok, err, lease_lost}
use incident_triage.Verification.Policy.{is_terminal}
use incident_triage.Verification.Sample.{Sample}
use incident_triage.Verification.Rows.{VerificationRow, Db}
use incident_triage.Verification.Core.{VerificationTicket, start}
use incident_triage.Verification.Core.Polling.{claim_due, record_observation, holds_lease, is_due}
use incident_triage.Verification.Core.Reachable.{
  Step, started, claimed, recorded, others_changed, Reach, here, next,
}

holds_lease-over :
    (ticket : VerificationTicket) (row : VerificationRow)
    → is_terminal row.status ≡ true
    → holds_lease ticket row ≡ false
holds_lease-over ticket row h = ground arith

start-over : (now : ℕ) (db : Db) → is_terminal db.row.status ≡ true → start now db ≡ db
unfolding start
start-over now db h = ground arith

claim_due-over :
    (max_attempts : ℕ) (owner : String) (lease now : ℕ) (db : Db)
    → is_terminal db.row.status ≡ true
    → claim_due max_attempts owner lease now db ≡ ok (db, none)
unfolding claim_due start
claim_due-over max_attempts owner lease now db h = ground arith

is_due-over :
    (now : ℕ) (row : VerificationRow) → is_terminal row.status ≡ true → is_due now row ≡ false
unfolding is_due
is_due-over now row h = ground arith

module _ (py : Builtins) (max_attempts : ℕ) where
  record_observation-over :
      (ticket : VerificationTicket) (sample : Sample) (evidence_ids : List ℕ) (observed_at now : ℕ)
      (db : Db)
      → is_terminal db.row.status ≡ true
      → record_observation py max_attempts ticket sample evidence_ids observed_at now db
        ≡ err lease_lost
  unfolding record_observation
  record_observation-over ticket sample evidence_ids observed_at now db h =
      rw (holds_lease-over ticket db.row h) refl

  -- What the commands have written is the same.
  pub record IsSame (db db' : Db) : Type 0 where
    pub row : db'.row ≡ db.row
    pub observations : db'.observations ≡ db.observations
    pub evidence_links : db'.evidence_links ≡ db.evidence_links
    pub outbox : db'.outbox ≡ db.outbox

  -- What every command makes of the verification.
  pub record IsOver (db : Db) : Type 0 where
    pub not_started : (now : ℕ) → start now db ≡ db
    pub not_claimed :
        (owner : String) (lease now : ℕ) → claim_due max_attempts owner lease now db ≡ ok (db, none)
    pub not_recorded :
        (ticket : VerificationTicket) (sample : Sample) (evidence_ids : List ℕ)
        (observed_at now : ℕ)
        → record_observation py max_attempts ticket sample evidence_ids observed_at now db
          ≡ err lease_lost
    pub not_due : (now : ℕ) → is_due now db.row ≡ false

  IsSame-db : {db db' : Db} → db' ≡ db → IsSame db db'
  IsSame-db e = record {
    row = ap (λ (d : Db). d.row) e;
    observations = ap (λ (d : Db). d.observations) e;
    evidence_links = ap (λ (d : Db). d.evidence_links) e;
    outbox = ap (λ (d : Db). d.outbox) e;
  }

  Step-IsSame :
      {db db' : Db} → Step py max_attempts db db' → is_terminal db.row.status ≡ true → IsSame db db'
  Step-IsSame (started now db) h = IsSame-db (start-over now db h)
  Step-IsSame (claimed owner lease now db db' ticket e) h =
      IsSame-db (cc (e, claim_due-over max_attempts owner lease now db h))
  Step-IsSame (recorded ticket sample evidence_ids observed_at now db db' same e) h =
      cc (e, record_observation-over ticket sample evidence_ids observed_at now db h)
  Step-IsSame (others_changed incident alerts remediation remediations evidence_refs db) h =
      record { row = refl; observations = refl; evidence_links = refl; outbox = refl }

  Reach-IsSame :
      {db db' : Db}
      → Reach py max_attempts db db'
      → is_terminal db.row.status ≡ true
      → IsSame db db'
  Reach-IsSame here h = record {
    row = refl;
    observations = refl;
    evidence_links = refl;
    outbox = refl;
  }
  Reach-IsSame (next r s) h =
      let before = Reach-IsSame r h in
      let step =
        Step-IsSame s (ap (λ (x : VerificationRow). is_terminal x.status) before.row ∙ h) in
      record {
        row = step.row ∙ before.row;
        observations = step.observations ∙ before.observations;
        evidence_links = step.evidence_links ∙ before.evidence_links;
        outbox = step.outbox ∙ before.outbox;
      }

  -- Once a verification has its verdict, its row, its observations, its evidence links and the
  -- events stay as they are over any sequence of starts, claims and reports and of changes that
  -- others make to the incident, its alerts, its remediations or the registered evidence. Whenever
  -- one comes later, a start and a claim change nothing, the claim hands out no ticket, every
  -- report fails with its lease lost, and the verification is never due.
  pub terminal_absorbing :
      {db db' : Db}
      → is_terminal db.row.status ≡ true
      → Reach py max_attempts db db'
      → IsSame db db' × IsOver db'
  terminal_absorbing {db} {db'} h r =
      let same = Reach-IsSame r h in
      let over : is_terminal db'.row.status ≡ true =
        ap (λ (x : VerificationRow). is_terminal x.status) same.row ∙ h in
      (
        same,
        record {
          not_started = λ now. start-over now db' over;
          not_claimed = λ owner lease now. claim_due-over max_attempts owner lease now db' over;
          not_recorded = λ ticket sample evidence_ids observed_at now.
              record_observation-over ticket sample evidence_ids observed_at now db' over;
          not_due = λ now. is_due-over now db'.row over;
        },
      )
