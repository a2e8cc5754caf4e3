-- ===== src/Verification/Core/Recording.antt =====
-- packages/incident/verifications.py: what `record_observation` records, and for whom.
use incident_triage.Base.{
  ℕ, ◌+◌, ◌≡◌, ◌≢◌, ◌↔◌, ◌⊎◌, refl, contains, any, All, [], nat_beq_iff, true, false, Bool, none,
  some, List, ◌∷◌, ◌++◌, map, arith, Bool-cases, inl, inr, nat_eq, string_eq, option_eq, ==_refl,
  ==→eq, ◌==◌, &&-true, subst, if◌then◌else◌,
}
use incident_triage.Builtins.{Builtins}
use incident_triage.Errors.{Result, ok, err, lease_lost, unexpected}
use incident_triage.Verification.Policy.{running}
use incident_triage.Verification.Sample.{Sample, ObservationResult, evaluate_sample}
use incident_triage.Verification.Decision.{Decision, decide}
use incident_triage.Verification.Rows.{VerificationRow, EvidenceLink, Db}
use incident_triage.Verification.Core.{VerificationTicket, is_running}
use incident_triage.Verification.Core.Polling.{
  observe, conclude_poll, record_observation, observation_decision, are_linkable, new_firing_alerts,
  holds_lease, time_or,
}
use incident_triage.Verification.Core.Streak.{Settles, finalize-Settles}
use incident_triage.Verification.Core.Verdict.{finalize-Applies}

-- The verification runs under a lease of the ticket's owner, of the ticket's own claim.
pub record IsHeld (ticket : VerificationTicket) (row : VerificationRow) : Type 0 where
  pub runs : row.status ≡ running
  pub owner : row.lease_owner ≡ some ticket.owner
  pub claim : row.claim_attempt ≡ ticket.claim_attempt

-- A counter that goes up by one if the test holds, and if not has the other value.
abbrev pub Counts : (test : Bool) (before other after : ℕ) → Type 0
Counts test before other after =
    ((test ≡ true) × (after ≡ before + 1)) ⊎ ((test ≡ false) × (after ≡ other))

holds_lease-IsHeld :
    (ticket : VerificationTicket) (row : VerificationRow)
    → holds_lease ticket row ≡ true
    → IsHeld ticket row
holds_lease-IsHeld ticket row h =
    let (first_two, same_claim) = &&-true _ (row.claim_attempt == ticket.claim_attempt) h in
    let (runs, same_owner) =
      &&-true (is_running row.status) (row.lease_owner == some ticket.owner) first_two in
    record {
      runs = ground arith;
      owner = ==→eq row.lease_owner (some ticket.owner) same_owner;
      claim = ==→eq row.claim_attempt ticket.claim_attempt same_claim;
    }

IsHeld-holds_lease :
    (ticket : VerificationTicket) (row : VerificationRow)
    → IsHeld ticket row
    → holds_lease ticket row ≡ true
IsHeld-holds_lease ticket row h =
    rw (h.runs, h.owner, h.claim, ==_refl ticket.owner, ==_refl ticket.claim_attempt) refl

-- Each piece of evidence is registered, not yet linked to the verification, and cited once.
abbrev pub AreLinkable : List ℕ → List EvidenceLink → List ℕ → Type 0
AreLinkable [] links refs = Unit
AreLinkable (e ∷ ids) links refs =
    (contains refs e ≡ true)
    × All (λ l. l.evidence_id ≢ e) links
    × (contains ids e ≡ false)
    × AreLinkable ids links refs

unlinked_iff :
    (e : ℕ) (links : List EvidenceLink)
    → (any (λ l. l.evidence_id == e) links ≡ false) ↔ All (λ l. l.evidence_id ≢ e) links
unlinked_iff e [] = (λ h. tt, λ h. refl)
unlinked_iff e (l ∷ links) = ground (arith, unlinked_iff e links, nat_beq_iff l.evidence_id e)

are_linkable-AreLinkable :
    (ids : List ℕ) (links : List EvidenceLink) (refs : List ℕ)
    → (are_linkable ids links refs ≡ true) ↔ AreLinkable ids links refs
are_linkable-AreLinkable [] links refs = (λ h. tt, λ h. refl)
are_linkable-AreLinkable (e ∷ ids) links refs =
    ground (arith, are_linkable-AreLinkable ids links refs, unlinked_iff e links)

module _ (py : Builtins) (max_attempts : ℕ) (ticket : VerificationTicket) (sample : Sample)
    (evidence_ids : List ℕ) (observed_at now : ℕ) (db : Db) where
  -- What was measured, with the alerts counted in the database.
  abbrev pub measured : ObservationResult
  measured =
      evaluate_sample py ticket.spec
        (record sample { new_firing_alerts = some (new_firing_alerts db) })

  -- The database after the report.
  pub record IsRecorded (db' : Db) : Type 0 where
    pub observations :
        db'.observations
        ≡ record {
          sequence = db.row.observation_count + 1;
          claim_attempt = ticket.claim_attempt;
          observed_at = observed_at;
          passed = measured.passed;
          conclusive = measured.conclusive;
          checks = measured.checks;
          errors = sample.errors;
          evidence_ids = evidence_ids;
        }
          ∷ db.observations
    pub evidence :
        db'.evidence_links
        ≡ map
            (λ e. record {
              evidence_id = e;
              poll_sequence = db.row.observation_count + 1;
              collected_at = observed_at;
            })
            evidence_ids
          ++ db.evidence_links
    pub counted : db'.row.observation_count ≡ db.row.observation_count + 1
    pub streak : Counts measured.passed db.row.consecutive_successes 0 db'.row.consecutive_successes
    pub conclusive :
        Counts measured.conclusive db.row.conclusive_count db.row.conclusive_count
          db'.row.conclusive_count
    pub status :
        db'.row.status
        ≡ (decide ticket.spec
            (some measured)
            db'.row.consecutive_successes
            db'.row.conclusive_count
            now
            (time_or db.row.deadline_at now)).status
    pub released : (db'.row.lease_owner ≡ none) × (db'.row.lease_expires_at ≡ none)

  abbrev recording : Result Db
  recording = record_observation py max_attempts ticket sample evidence_ids observed_at now db

  abbrev observed : Db
  observed =
      observe ticket measured (record sample { new_firing_alerts = some (new_firing_alerts db) })
        evidence_ids observed_at now db

  abbrev decision : Decision
  decision = observation_decision ticket measured now observed

  Counts-if :
      (test : Bool) (before other : ℕ)
      → Counts test before other (if test then before + 1 else other)
  Counts-if true before other = inl (refl, refl)
  Counts-if false before other = inr (refl, refl)

  Counts-plus :
      (test : Bool) (before : ℕ) → Counts test before before (before + (if test then 1 else 0))
  Counts-plus true before = inl (refl, refl)
  Counts-plus false before = inr (refl, omega arith)

  Settles-IsRecorded : (db' : Db) → Settles decision observed (ok db') → IsRecorded db'
  unfolding observe
  Settles-IsRecorded db' s = record {
    observations = s.0;
    evidence = s.6;
    counted = s.3;
    streak = rw (s.4) (Counts-if measured.passed db.row.consecutive_successes 0);
    conclusive = rw (s.5) (Counts-plus measured.conclusive db.row.conclusive_count);
    status = rw (s.4, s.5) (s.2);
    released = (s.7, s.8);
  }

  observed-Settles :
      is_running decision.status ≡ true
      → db.row.status ≡ running
      → Settles decision observed (ok observed)
  unfolding observe
  observed-Settles goes_on runs = (refl, refl, ground arith, refl, refl, refl, refl, refl, refl)

  records :
      db.row.status ≡ running
      → (db' : Db) × (conclude_poll max_attempts now decision observed ≡ ok db') × IsRecorded db'
  unfolding conclude_poll
  records runs = elim (Bool-cases (is_running decision.status)) [
    | inl goes_on ↦
        (observed, rw goes_on refl, Settles-IsRecorded observed (observed-Settles goes_on runs))
    | inr ends ↦
        let (db', commits, _, _) = finalize-Applies max_attempts now decision observed in
        (
          db',
          rw ends commits,
          Settles-IsRecorded db' (
              subst (Settles decision observed) commits
                (finalize-Settles max_attempts now decision observed)),
        )
  ]

  -- A report of a ticket commits exactly when the verification runs under a lease of the ticket's
  -- owner, of the ticket's own claim, and its evidence is registered, cited once and not linked
  -- before. It then puts one observation, of what was measured, before the others, with a link for
  -- each piece of its evidence; counts it, in the run of successes and among the conclusive ones
  -- too if it is one; ends the lease; and leaves the status that `decide` gives on the new
  -- counters. Without the lease it fails with its lease lost, and with other evidence it fails too.
  pub record_observation-fenced :
      (IsHeld ticket db.row
        × AreLinkable evidence_ids db.evidence_links db.evidence_refs
        × (db' : Db) × (recording ≡ ok db')
        × IsRecorded db')
      ⊎ (IsHeld ticket db.row
          × (¬ AreLinkable evidence_ids db.evidence_links db.evidence_refs)
          × (recording ≡ err unexpected))
      ⊎ ((¬ IsHeld ticket db.row) × (recording ≡ err lease_lost))
  unfolding record_observation
  record_observation-fenced = elim (Bool-cases (holds_lease ticket db.row)) [
    | inl held ↦
        let is_held = holds_lease-IsHeld ticket db.row held in
        let linkable_iff =
          are_linkable-AreLinkable evidence_ids db.evidence_links db.evidence_refs in
        elim (Bool-cases (are_linkable evidence_ids db.evidence_links db.evidence_refs)) [
          | inl linkable ↦
              let (db', commits, is_recorded) = records is_held.runs in
              inl (is_held, linkable_iff.0 linkable, db', rw (held, linkable) commits, is_recorded)
          | inr refused ↦
              inr (inl (is_held, λ h. cc (refused, linkable_iff.1 h), rw (held, refused) refl))
        ]
    | inr lost ↦ inr (inr (λ h. cc (lost, IsHeld-holds_lease ticket db.row h), rw lost refl))
  ]
