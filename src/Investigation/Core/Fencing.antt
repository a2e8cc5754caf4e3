-- ===== src/Investigation/Core/Fencing.antt =====
-- packages/incident/investigations.py: `claim` and the lease that fences every write.
use incident_triage.Base.{
  ℕ, ◌≡◌, ◌<◌, ◌+◌, refl, inl, inr, String, true, false, Option, List, nat_eq, string_eq, option_eq,
  Option-cases, ◌==◌, arith, ==_refl, ltb, subst,
}
use incident_triage.Errors.{ok, err, lease_lost}
use incident_triage.Incident.Row.{IncidentRow}
use incident_triage.Investigation.Hypothesis.{HypothesisUpdate}
use incident_triage.Investigation.Conclusion.{StoppingCriteria, FinalInvestigationResult}
use incident_triage.Investigation.Rows.{InvestigationRow, is_terminal, Db}
use incident_triage.Investigation.Core.{
  claim, take, holds, is_resumable, lease_is_live, record_step, StepInput,
}
use incident_triage.Investigation.Core.Updates.{apply_hypothesis_updates}
use incident_triage.Investigation.Core.Outcome.{complete, escalate, Ending}

-- Every write of a worker is refused.
pub record IsFencedOff (owner : String) (db : Db) : Type 0 where
  pub no_step :
      (input : StepInput) (lease now : ℕ) → record_step owner input lease now db ≡ err lease_lost
  pub no_update :
      (decimal : ℕ → ℕ) (iteration : ℕ) (call_id : String) (updates : List HypothesisUpdate)
      (now : ℕ)
      → apply_hypothesis_updates decimal owner iteration call_id updates now db ≡ err lease_lost
  pub no_conclusion :
      (stored : IncidentRow) (criteria : StoppingCriteria) (decimal : ℕ → ℕ) (iteration : ℕ)
      (call_id : String) (result : FinalInvestigationResult) (now : ℕ)
      → complete stored criteria decimal owner iteration call_id result now db ≡ err lease_lost
  pub no_ending :
      (stored : IncidentRow) (iteration : ℕ) (ending : Ending) (reason_code : String)
      (call_id : Option String) (now : ℕ)
      → escalate stored owner iteration ending reason_code call_id now db ≡ err lease_lost

fenced_off : (owner : String) (db : Db) → holds owner db.row ≡ false → IsFencedOff owner db
unfolding record_step apply_hypothesis_updates complete escalate
fenced_off owner db lost = record {
  no_step = λ input lease now. rw lost refl;
  no_update = λ decimal iteration call_id updates now. rw lost refl;
  no_conclusion = λ stored criteria decimal iteration call_id result now. rw lost refl;
  no_ending = λ stored iteration ending reason_code call_id now. rw lost refl;
}

-- What `claim` returns: the row was taken, or nothing changed.
claimed_row :
    (owner : String) (lease now : ℕ) (db db' : Db)
    → claim owner lease now db ≡ ok (db', true)
    → (is_terminal db.row.status ≡ false) × (take owner lease now db ≡ db')
unfolding claim
claimed_row owner lease now db db' e = ground (arith, e)

live : (a b : ℕ) → a < b → ltb a b ≡ true
live a b h = ground arith

-- A worker that has claimed an investigation holds it; until its lease runs out no other worker's
-- claim succeeds or changes anything, and every step, hypothesis update, conclusion or escalation
-- of another worker is refused with a lost lease.
pub claim-excludes :
    (owner other : String) (lease now wanted later : ℕ) (db db' : Db)
    → claim owner lease now db ≡ ok (db', true)
    → (owner == other) ≡ false
    → later < now + lease
    → (holds owner db'.row ≡ true)
      × (claim other wanted later db' ≡ ok (db', false))
      × IsFencedOff other db'
unfolding claim
claim-excludes owner other lease now wanted later db db' e different before =
    subst
      (λ (d : Db).
        (holds owner d.row ≡ true)
        × (claim other wanted later d ≡ ok (d, false))
        × IsFencedOff other d)
      (claimed_row owner lease now db db' e).1
      (
        ==_refl owner,
        rw (live later (now + lease) before, different) refl,
        fenced_off other (take owner lease now db) different,
      )

lapsed_lease :
    (now : ℕ) (row : InvestigationRow)
    → is_resumable now row ≡ true
    → (is_terminal row.status ≡ false) × (lease_is_live now row ≡ false)
unfolding is_resumable
lapsed_lease now row ready = elim (Option-cases row.lease_expires_at) [
  | inl unset ↦ ground (arith, ready, unset)
  | inr (t, set) ↦ ground (arith, ready, set)
]

-- An investigation that `resumable` lists is taken by whichever worker claims it, and that worker
-- holds it then.
pub claim-resumable :
    (owner : String) (lease now : ℕ) (db : Db)
    → is_resumable now db.row ≡ true
    → (db' : Db) × (claim owner lease now db ≡ ok (db', true)) × (holds owner db'.row ≡ true)
unfolding claim
claim-resumable owner lease now db ready =
    let (unfinished, free) = lapsed_lease now db.row ready in
    (take owner lease now db, rw (unfinished, free) refl, ==_refl owner)
