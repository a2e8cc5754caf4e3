-- ===== src/Verification/Core/Tests.antt =====
-- packages/incident/verifications.py: a verification that is started, claimed and polled once.
use incident_triage.Base.{◌≡◌, ◌≤◌, ◌⊎◌, refl, true, none, some, [], ◌∷◌, arith, string_eq, ap}
use incident_triage.Builtins.{sample_builtins}
use incident_triage.Errors.{Result, ok, err, lease_lost, unexpected}
use incident_triage.Incident.Status.{IncidentStatus}
use incident_triage.Incident.Row.{transition_incident_status}
use incident_triage.Remediation.Status.{RemediationStatus}
use incident_triage.Verification.Policy.{VerificationStatus, pending, is_terminal}
use incident_triage.Verification.Rows.{Db}
use incident_triage.Verification.Sample.{evaluate_sample, check_sample}
use incident_triage.Verification.Decision.{Decision, decide}
use incident_triage.Verification.Core.{
  VerificationTicket, begin, start, staleness, move_incident, apply_verdict, settle,
  apply_unless_stale, finalize,
}
use incident_triage.Verification.Core.Polling.{
  grant, claim_running, claim_due, new_firing_alerts, observe, conclude_poll, record_observation,
}
use incident_triage.Verification.Core.Streak.{passing_run}
use incident_triage.Verification.Core.Reachable.{
  started, claimed, recorded, others_changed, Reach, here, next, IsNew, passed_needs_streak,
}
use incident_triage.Verification.Core.Verdict.{Applies, finalize-Applies}
use incident_triage.Verification.Core.Fencing.{IsExclusive, claim_due-IsExclusive, deadline_ends}
use incident_triage.Verification.Core.Recording.{
  IsHeld, AreLinkable, IsRecorded, record_observation-fenced,
}
use incident_triage.Verification.Core.Absorbing.{IsSame, IsOver, terminal_absorbing}
use incident_triage.Verification.Tests.{spec, sample}

abbrev requested : Db
requested = record {
  row = record {
    id = 11;
    incident_id = 1;
    remediation_id = 5;
    spec = spec;
    status = pending;
    consecutive_successes = 0;
    observation_count = 0;
    conclusive_count = 0;
    result = none;
    failure_reason = none;
    not_applied = none;
    next_action = none;
    known_alert_ids = [];
    claim_attempt = 0;
    lease_owner = none;
    lease_expires_at = none;
    grace_until = none;
    deadline_at = none;
    next_poll_at = none;
    started_at = none;
    completed_at = none;
    updated_at = 500;
  };
  observations = [];
  evidence_links = [];
  evidence_refs = 31 ∷ [];
  incident = record {
    id = 1;
    status = IncidentStatus.verifying;
    severity = "critical";
    service = "checkout";
    environment = "production";
    attempt_count = 1;
    version = 6;
    updated_at = 500;
  };
  alerts = record { id = 21; is_firing = true } ∷ [];
  remediation = record {
    id = 5;
    status = RemediationStatus.executed;
    verification_ref = some 11;
    created_at = 100;
  };
  remediations = 100 ∷ [];
  outbox = [];
}

abbrev committed : Db → Result Db → Db
committed db (ok db') = db'
committed db (err e) = db

abbrev claimed_in {ℓ} : {T : Type ℓ} → Db → Result (Db × T) → Db
claimed_in db (ok (db', t)) = db'
claimed_in db (err e) = db

abbrev begun : Db
begun = start 1000 requested

abbrev leased : Db
leased = claimed_in begun (claim_due 3 "worker" 60000000 50000000 begun)

abbrev ticket : VerificationTicket
ticket = record {
  verification_id = 11;
  incident_id = 1;
  remediation_id = 5;
  spec = spec;
  owner = "worker";
  claim_attempt = 1;
}

claims : claim_due 3 "worker" 60000000 50000000 begun ≡ ok (leased, some ticket)
unfolding start begin claim_due claim_running grant
claims = refl

abbrev observed : Db
observed =
    committed leased
      (record_observation sample_builtins 3 ticket sample [] 51000000 51000000 leased)

records :
    record_observation sample_builtins 3 ticket sample [] 51000000 51000000 leased ≡ ok observed
unfolding start begin claim_due claim_running grant record_observation new_firing_alerts observe
    conclude_poll evaluate_sample check_sample decide finalize settle staleness apply_unless_stale
    apply_verdict move_incident transition_incident_status
records = refl

same_spec : ticket.spec ≡ leased.row.spec
unfolding start begin claim_due claim_running grant
same_spec = refl

requested-IsNew : IsNew sample_builtins 3 requested
requested-IsNew = record {
  is_pending = refl;
  no_observations = refl;
  none_counted = refl;
  no_streak = refl;
  none_conclusive = refl;
}

to_observed : Reach sample_builtins 3 requested observed
to_observed =
    next
      (next (next here (started 1000 requested))
        (claimed "worker" 60000000 50000000 begun leased (some ticket) claims))
      (recorded ticket sample [] 51000000 51000000 leased observed same_spec records)

observed-status : observed.row.status ≡ VerificationStatus.passed
unfolding start begin claim_due claim_running grant record_observation new_firing_alerts observe
    conclude_poll evaluate_sample check_sample decide finalize settle staleness apply_unless_stale
    apply_verdict move_incident transition_incident_status
observed-status = refl

passed_needs_streak_example :
    observed.row.spec.required_consecutive ≤ passing_run observed.observations
passed_needs_streak_example =
    (passed_needs_streak sample_builtins 3 requested-IsNew to_observed).0 observed-status

abbrev failure : Decision
failure = record { status = VerificationStatus.failed; reason = none }

finalize-Applies_example :
    (db' : Db) × (finalize 3 900 failure requested ≡ ok db')
    × (db'.row.status ≡ VerificationStatus.failed)
    × Applies 3 requested VerificationStatus.failed db'
finalize-Applies_example = finalize-Applies 3 900 failure requested

-- a report that cites a registered piece of evidence
record_observation-fenced_example :
    (IsHeld ticket leased.row
      × AreLinkable (31 ∷ []) leased.evidence_links leased.evidence_refs
      × (db' : Db) × (record_observation sample_builtins 3 ticket sample
            (31 ∷ [])
            51000000
            51000000
            leased
          ≡ ok db')
      × IsRecorded sample_builtins 3 ticket sample (31 ∷ []) 51000000 51000000 leased db')
    ⊎ (IsHeld ticket leased.row
        × (¬ AreLinkable (31 ∷ []) leased.evidence_links leased.evidence_refs)
        × (record_observation sample_builtins 3 ticket sample (31 ∷ []) 51000000 51000000 leased
            ≡ err unexpected))
    ⊎ ((¬ IsHeld ticket leased.row)
        × (record_observation sample_builtins 3 ticket sample (31 ∷ []) 51000000 51000000 leased
            ≡ err lease_lost))
record_observation-fenced_example =
    record_observation-fenced sample_builtins 3 ticket sample (31 ∷ []) 51000000 51000000 leased

claim_due-IsExclusive_example : IsExclusive 3 110000000 begun leased ticket
claim_due-IsExclusive_example =
    claim_due-IsExclusive 3 "worker" 60000000 50000000 begun leased ticket claims

-- Everything else is gone, and a claim comes late.
abbrev quiet : Db
quiet = record observed { alerts = []; remediations = []; evidence_refs = [] }

over_claim : claim_due 3 "other" 60 60000000 quiet ≡ ok (quiet, none)
unfolding start begin claim_due claim_running grant record_observation new_firing_alerts observe
    conclude_poll evaluate_sample check_sample decide finalize settle staleness apply_unless_stale
    apply_verdict move_incident transition_incident_status
over_claim = refl

terminal_absorbing_example :
    IsSame sample_builtins 3 observed quiet × IsOver sample_builtins 3 quiet
terminal_absorbing_example = terminal_absorbing sample_builtins 3 (ap is_terminal observed-status) (
    next (next here (others_changed observed.incident [] observed.remediation [] [] observed))
      (claimed "other" 60 60000000 quiet quiet none over_claim))

abbrev overdue : Db
overdue = record requested {
  row = record (requested.row) { status = VerificationStatus.running; deadline_at = some 700 };
}

deadline_ends_example :
    (db' : Db) × (claim_due 3 "worker" 60 900 overdue ≡ ok (db', none))
    × (is_terminal db'.row.status ≡ true)
deadline_ends_example = deadline_ends 3 "worker" 60 900 overdue refl refl (omega arith) refl
