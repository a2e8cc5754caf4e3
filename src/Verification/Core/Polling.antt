-- ===== src/Verification/Core/Polling.antt =====
-- packages/incident/verifications.py: `claim_due`, `record_observation` and `due`.
use incident_triage.Base.{
  ℕ, ◌+◌, String, Bool, true, false, not, ◌&&◌, ◌||◌, Option, none, some, List, [], ◌∷◌, ◌++◌, map,
  if◌then◌else◌, ◌==◌, nat_eq, string_eq, option_eq, leb, ltb, filter, length, contains, is_some,
  any,
}
use incident_triage.Builtins.{Builtins}
use incident_triage.Errors.{lease_lost, unexpected, Result, ok, ◌>>=◌, ◌>>◌, raise_if}
use incident_triage.Incident.Status.{incident_status_eq}
use incident_triage.Remediation.Status.{remediation_status_eq}
use incident_triage.Verification.Sample.{Sample, ObservationResult, evaluate_sample}
use incident_triage.Verification.Decision.{Decision, decide}
use incident_triage.Verification.Rows.{VerificationRow, EvidenceLink, Db}
use incident_triage.Verification.Core.{VerificationTicket, finalize, is_pending, is_running, start}

-- `_latest_result`
abbrev pub latest_result : Db → Option ObservationResult
latest_result db = elim db.observations [
  | [] ↦ none
  | last ∷ _ ↦ some (record {
    passed = last.passed;
    conclusive = last.conclusive;
    definitive_failure = none;
    checks = last.checks;
  })
]

-- A lease with an owner and an end that lies ahead.
abbrev pub lease_is_live : ℕ → VerificationRow → Bool
lease_is_live now row =
    is_some row.lease_owner && elim row.lease_expires_at [ none ↦ false | some t ↦ ltb now t ]

abbrev pub is_past_deadline : ℕ → VerificationRow → Bool
is_past_deadline now row = elim row.deadline_at [ none ↦ false | some t ↦ leb t now ]

abbrev pub is_before_poll : ℕ → VerificationRow → Bool
is_before_poll now row = elim row.next_poll_at [ none ↦ false | some t ↦ ltb now t ]

abbrev pub time_or : Option ℕ → ℕ → ℕ
time_or none d = d
time_or (some t) d = t

unfoldable pub deadline_decision : ℕ → Db → Decision
deadline_decision now db =
    decide db.row.spec (latest_result db) db.row.consecutive_successes db.row.conclusive_count now
      (time_or db.row.deadline_at now)

unfoldable pub grant : String → ℕ → ℕ → Db → Db × VerificationTicket
grant owner lease now db =
    let row = record (db.row) {
      claim_attempt = db.row.claim_attempt + 1;
      lease_owner = some owner;
      lease_expires_at = some (now + lease);
      updated_at = now;
    } in
    (
      record db { row = row },
      record {
        verification_id = row.id;
        incident_id = row.incident_id;
        remediation_id = row.remediation_id;
        spec = row.spec;
        owner = owner;
        claim_attempt = row.claim_attempt;
      },
    )

abbrev pub no_ticket : Db → Result (Db × Option VerificationTicket)
no_ticket db = ok (db, none)

abbrev pub with_ticket : Db × VerificationTicket → Result (Db × Option VerificationTicket)
with_ticket (db, t) = ok (db, some t)

-- `claim_due` on a verification that is running.
unfoldable pub claim_running : ℕ → String → ℕ → ℕ → Db → Result (Db × Option VerificationTicket)
claim_running max_attempts owner lease now db =
    if lease_is_live now db.row
    then no_ticket db
    else if is_past_deadline now db.row
    then finalize max_attempts now (deadline_decision now db) db >>= no_ticket
    else if is_before_poll now db.row
    then no_ticket db
    else with_ticket (grant owner lease now db)

unfoldable pub claim_due : ℕ → String → ℕ → ℕ → Db → Result (Db × Option VerificationTicket)
claim_due max_attempts owner lease now db =
    let started = start now db in
    if is_running started.row.status
    then claim_running max_attempts owner lease now started
    else no_ticket started

-- `_new_firing_alerts`
unfoldable pub new_firing_alerts : Db → ℕ
new_firing_alerts db =
    length (filter (λ a. a.is_firing && not (contains db.row.known_alert_ids a.id)) db.alerts)

abbrev pub holds_lease : VerificationTicket → VerificationRow → Bool
holds_lease ticket row =
    is_running row.status
    && (row.lease_owner == some ticket.owner)
    && (row.claim_attempt == ticket.claim_attempt)

-- The keys of `verification_evidence`: evidence is linked to a verification once, and is registered.
abbrev pub are_linkable : List ℕ → List EvidenceLink → List ℕ → Bool
are_linkable [] links refs = true
are_linkable (e ∷ ids) links refs =
    (contains refs e && not (any (λ l. l.evidence_id == e) links || contains ids e))
    && are_linkable ids links refs

-- The counters, the observation and its evidence links, and the next poll.
unfoldable pub observe : VerificationTicket → ObservationResult → Sample → List ℕ → ℕ → ℕ → Db → Db
observe ticket result sample evidence_ids observed_at now db =
    let sequence = db.row.observation_count + 1 in
    record db {
      row = record (db.row) {
        observation_count = sequence;
        conclusive_count = db.row.conclusive_count + (if result.conclusive then 1 else 0);
        consecutive_successes = if result.passed then db.row.consecutive_successes + 1 else 0;
        next_poll_at = some (now + ticket.spec.poll_interval);
        lease_owner = none;
        lease_expires_at = none;
        updated_at = now;
      };
      observations =
          record {
            sequence = sequence;
            claim_attempt = ticket.claim_attempt;
            observed_at = observed_at;
            passed = result.passed;
            conclusive = result.conclusive;
            checks = result.checks;
            errors = sample.errors;
            evidence_ids = evidence_ids;
          }
          ∷ db.observations;
      evidence_links =
          map
            (λ e. record { evidence_id = e; poll_sequence = sequence; collected_at = observed_at })
            evidence_ids
          ++ db.evidence_links;
    }

abbrev pub observation_decision : VerificationTicket → ObservationResult → ℕ → Db → Decision
observation_decision ticket result now db =
    decide ticket.spec (some result) db.row.consecutive_successes db.row.conclusive_count now
      (time_or db.row.deadline_at now)

-- The verdict after a poll, if there is one.
unfoldable pub conclude_poll : ℕ → ℕ → Decision → Db → Result Db
conclude_poll max_attempts now decision db =
    if is_running decision.status then ok db else finalize max_attempts now decision db

unfoldable pub record_observation :
    Builtins → ℕ → VerificationTicket → Sample → List ℕ → ℕ → ℕ → Db → Result Db
record_observation py max_attempts ticket sample evidence_ids observed_at now db = do
  raise_if (not (holds_lease ticket db.row)) lease_lost
  raise_if (not (are_linkable evidence_ids db.evidence_links db.evidence_refs)) unexpected
  let seen = record sample { new_firing_alerts = some (new_firing_alerts db) }
  let result = evaluate_sample py ticket.spec seen
  let observed = observe ticket result seen evidence_ids observed_at now db
  conclude_poll max_attempts now (observation_decision ticket result now observed) observed

-- `due`, of one verification.
unfoldable pub is_due : ℕ → VerificationRow → Bool
is_due now row =
    is_pending row.status
    || (is_running row.status
        && (elim row.next_poll_at [ none ↦ false | some t ↦ leb t now ] || is_past_deadline now row)
        && elim row.lease_expires_at [ none ↦ true | some t ↦ ltb t now ])
