-- ===== src/Remediation/Core/Proposing/Routing.antt =====
-- packages/incident/remediations.py: what a proposal comes to.
use incident_triage.Base.{
  ℕ, ◌+◌, ◌≡◌, ◌≢◌, refl, String, true, false, ◌⊎◌, Option, none, some, List, [], ◌∷◌, ◌==◌, nat_eq,
  string_eq, find, Document, if◌then◌else◌, Bool-cases, inl, inr, ==_refl, subst, ap, ◌∙◌,
}
use incident_triage.Errors.{ok, err, unexpected, ◌>>=◌}
use incident_triage.Incident.Status.{
  IncidentStatus, incident_status_eq, rca_ready, awaiting_approval, escalated,
}
use incident_triage.Incident.Row.{IncidentRow, transition_incident_status}
use incident_triage.Remediation.Status.{RemediationStatus}
use incident_triage.Remediation.Catalog.{Validator, get_entry}
use incident_triage.Remediation.Proposal.{
  RemediationProposal, Verdict, allow, denied, needs_approval, PolicyDecision,
}
use incident_triage.Remediation.Rows.{ApprovalStatus, Code, Db}
use incident_triage.Remediation.Core.{transition, move_incident}
use incident_triage.Remediation.Core.Context.{ServiceTopology, World, context_of}
use incident_triage.Remediation.Core.Proposing.{
  tier_for, evaluated, decision_on, request_approval, route, existing, fresh, propose_for, propose,
  is_known_investigation,
}
use incident_triage.Policy.{Policy, validated}
use incident_triage.Policy.Gates.{Permits, evaluate-Permits}

-- The status of an incident that a proposal moves out of `rca_ready`.
abbrev pub moved_to : IncidentStatus → IncidentRow → IncidentStatus
moved_to to_status incident = if incident.status == rca_ready then to_status else incident.status

-- A new remediation that has been rejected.
pub record IsRejected (incident : IncidentRow) (db : Db) : Type 0 where
  pub status : db.row.status ≡ RemediationStatus.policy_rejected
  pub reason : db.row.failure_reason ≡ some Code.policy_rejected
  pub incident_moved : db.incident.status ≡ moved_to escalated incident

-- One that waits for a human, with nothing done yet.
pub record IsWaiting (incident : IncidentRow) (db : Db) : Type 0 where
  pub status : db.row.status ≡ RemediationStatus.awaiting_approval
  pub pending : db.row.approval_status ≡ some ApprovalStatus.pending
  pub no_approval : db.approval ≡ none
  pub none_counted : db.row.execution_attempts ≡ 0
  pub no_executions : db.executions ≡ []
  pub no_verifications : db.verifications ≡ []
  pub incident_moved : db.incident.status ≡ moved_to awaiting_approval incident

-- The row has the key, and the decision that is recorded is on the row's proposal.
pub record IsDecided (idempotency_key : String) (verdict : Verdict) (db : Db) : Type 0 where
  pub keyed : db.row.idempotency_key ≡ idempotency_key
  pub decision_id : ℕ
  pub refers : db.row.policy_decision_id ≡ some decision_id
  pub roles : List String
  pub recorded :
      db.decision
      ≡ some (record {
        id = decision_id;
        proposal_hash = db.row.proposal_hash;
        decision = verdict;
        required_approver_roles = roles;
      })

abbrev pub IsRouted : Verdict → IncidentRow → Db → Type 0
IsRouted denied incident db = IsRejected incident db
IsRouted allow incident db = IsWaiting incident db
IsRouted needs_approval incident db = IsWaiting incident db

transition_same :
    (incident : IncidentRow) (status : IncidentStatus) (now : ℕ)
    → transition_incident_status incident incident status now
      ≡ some (record incident { status = status; version = incident.version + 1; updated_at = now })
unfolding transition_incident_status
transition_same incident status now = rw (==_refl incident.version) refl

module _ (v : Validator) (topology : ServiceTopology) (policy : Policy)
    (proposal_hash : ℕ → Option ℕ → String → String → Document → String → String)
    (idempotency_key : String) (now : ℕ) (proposal : RemediationProposal) (world : World)
    (incident : IncidentRow) where
  abbrev before : Db
  before = evaluated v topology policy proposal_hash idempotency_key now incident proposal world

  abbrev decision : PolicyDecision
  decision = decision_on v topology policy proposal_hash now incident proposal world

  abbrev Routes : Verdict → Type 0
  Routes verdict =
      (db : Db) × (route now verdict before ≡ ok db)
      × IsRouted verdict incident db
      × IsDecided idempotency_key decision.decision db

  rejects : Routes denied
  unfolding route transition move_incident
  rejects = elim (Bool-cases (incident.status == rca_ready)) [
    | inl ready ↦
        rw (ready, transition_same incident escalated now)
          (
            _,
            refl,
            record { status = refl; reason = refl; incident_moved = rw ready refl },
            record {
              keyed = refl;
              decision_id = world.next_id + 1;
              refers = refl;
              roles = decision.required_approver_roles;
              recorded = refl;
            },
          )
    | inr other ↦ rw other (
      _,
      refl,
      record { status = refl; reason = refl; incident_moved = rw other refl },
      record {
        keyed = refl;
        decision_id = world.next_id + 1;
        refers = refl;
        roles = decision.required_approver_roles;
        recorded = refl;
      },
    )
  ]

  waits :
      (db : Db) × (request_approval now before ≡ ok db)
      × IsWaiting incident db
      × IsDecided idempotency_key decision.decision db
  unfolding transition move_incident
  waits = elim (Bool-cases (incident.status == rca_ready)) [
    | inl ready ↦
        rw (ready, transition_same incident awaiting_approval now)
          (
            _,
            refl,
            record {
              status = refl;
              pending = refl;
              no_approval = refl;
              none_counted = refl;
              no_executions = refl;
              no_verifications = refl;
              incident_moved = rw ready refl;
            },
            record {
              keyed = refl;
              decision_id = world.next_id + 1;
              refers = refl;
              roles = decision.required_approver_roles;
              recorded = refl;
            },
          )
    | inr other ↦ rw other (
      _,
      refl,
      record {
        status = refl;
        pending = refl;
        no_approval = refl;
        none_counted = refl;
        no_executions = refl;
        no_verifications = refl;
        incident_moved = rw other refl;
      },
      record {
        keyed = refl;
        decision_id = world.next_id + 1;
        refers = refl;
        roles = decision.required_approver_roles;
        recorded = refl;
      },
    )
  ]

  routes : (verdict : Verdict) → Routes verdict
  unfolding route
  routes denied = rejects
  routes allow = waits
  routes needs_approval = waits

  -- A proposal for a known incident under a new key: one that names an investigation that does
  -- not exist fails. Any other is rejected, and the incident escalated, if policy denies it, and
  -- else waits for an approval with no attempt, approval or verification yet, and the incident
  -- with it; an incident that is not ready stays where it is. The remediation refers to the
  -- recorded decision, which is on its own hash and is policy's verdict on the facts that were
  -- read.
  pub propose-IsRouted :
      world.incident ≡ some incident
      → find (λ r. r.idempotency_key == idempotency_key) world.remediations ≡ none
      → ((is_known_investigation proposal.investigation_id world.investigation_ids ≡ true)
          × (db : Db) × (propose v topology policy proposal_hash idempotency_key now proposal world
              ≡ ok (fresh db))
          × IsRouted decision.decision incident db
          × IsDecided idempotency_key decision.decision db)
        ⊎ ((is_known_investigation proposal.investigation_id world.investigation_ids ≡ false)
            × (propose v topology policy proposal_hash idempotency_key now proposal world
                ≡ err unexpected))
  unfolding propose propose_for
  propose-IsRouted known new =
      elim (Bool-cases (is_known_investigation proposal.investigation_id world.investigation_ids)) [
        | inl exists ↦
            let (db, routed, is_routed, is_decided) = routes decision.decision in
            inl (
              exists,
              db,
              first ∙ rw exists (ap (λ r. r >>= λ d. ok (fresh d)) routed),
              is_routed,
              is_decided,
            )
        | inr missing ↦ inr (missing, first ∙ rw missing refl)
      ]
    where
      first :
          propose v topology policy proposal_hash idempotency_key now proposal world
          ≡ propose_for v topology policy proposal_hash idempotency_key now proposal world
              (some incident)
              none
      first =
          ap
            (λ i.
              propose_for v topology policy proposal_hash idempotency_key now proposal world i
                (find (λ r. r.idempotency_key == idempotency_key) world.remediations))
            known
          ∙ ap
              (λ b.
                propose_for v topology policy proposal_hash idempotency_key now proposal world
                  (some incident) b)
              new

  committed :
      (db : Db)
      → world.incident ≡ some incident
      → find (λ r. r.idempotency_key == idempotency_key) world.remediations ≡ none
      → propose v topology policy proposal_hash idempotency_key now proposal world ≡ ok (fresh db)
      → IsRouted decision.decision incident db × IsDecided idempotency_key decision.decision db
  committed db known new e = elim (propose-IsRouted known new) [
    | inl (exists, other, same, routed, decided) ↦
        let is : other ≡ db = cc (same, e) in
        (
          subst (IsRouted decision.decision incident) is routed,
          subst (IsDecided idempotency_key decision.decision) is decided,
        )
    | inr (missing, fails) ↦ cc (fails, e)
  ]

  undenied :
      (verdict : Verdict) (db : Db)
      → decision.decision ≡ verdict
      → IsRouted verdict incident db
      → db.row.status ≡ RemediationStatus.awaiting_approval
      → decision.decision ≢ denied
  undenied denied db e r waiting = λ h. cc (r.status, waiting)
  undenied allow db e r waiting = λ h. cc (e, h)
  undenied needs_approval db e r waiting = λ h. cc (e, h)

  -- A proposal under a new key that comes to wait for an approval names an action of the catalog
  -- with valid parameters, and every gate of the policy lets it pass on the facts that were read
  -- of the database.
  pub propose-Permits :
      (db : Db)
      → world.incident ≡ some incident
      → find (λ r. r.idempotency_key == idempotency_key) world.remediations ≡ none
      → propose v topology policy proposal_hash idempotency_key now proposal world ≡ ok (fresh db)
      → db.row.status ≡ RemediationStatus.awaiting_approval
      → Permits
          (get_entry proposal.action_id)
          (validated v (get_entry proposal.action_id) proposal)
          policy
          (context_of topology now incident proposal (tier_for v proposal) world)
  propose-Permits db known new e waiting =
      (evaluate-Permits v proposal (get_entry proposal.action_id) policy _).0
        (undenied decision.decision db refl (committed db known new e).0 waiting)

  -- The database with the remediation in it.
  abbrev pub stored : Db → World
  stored db = record world {
    incident = some db.incident;
    remediations = db.row ∷ world.remediations;
  }

  -- Proposing again under the same key, whatever is proposed, returns the remediation that the
  -- first proposal made.
  pub propose-replay :
      (db : Db) (later : ℕ) (again : RemediationProposal)
      → world.incident ≡ some incident
      → find (λ r. r.idempotency_key == idempotency_key) world.remediations ≡ none
      → propose v topology policy proposal_hash idempotency_key now proposal world ≡ ok (fresh db)
      → propose v topology policy proposal_hash idempotency_key later again (stored db)
        ≡ ok (existing db.row)
  unfolding propose propose_for
  propose-replay db later again known new e =
      let keyed = (committed db known new e).1.keyed in rw (keyed, ==_refl idempotency_key) refl
