-- ===== src/Remediation/Core/Proposing/Tests.antt =====
-- packages/incident/remediations.py: a proposal for an incident with a root cause.
use incident_triage.Base.{ℕ, String, ◌≡◌, refl, true, false, ◌⊎◌, Option, some, [], ◌∷◌, Document}
use incident_triage.Errors.{Result, ok, err, unexpected}
use incident_triage.Incident.Status.{IncidentStatus}
use incident_triage.Incident.Row.{IncidentRow, transition_incident_status}
use incident_triage.Investigation.Rows.{InvestigationStatus}
use incident_triage.Remediation.Catalog.{validate, blast_radius, get_entry, catalog}
use incident_triage.Remediation.Samples.{validator, proposal}
use incident_triage.Remediation.Status.{RemediationStatus}
use incident_triage.Remediation.Rows.{Db}
use incident_triage.Remediation.Core.{transition, move_incident}
use incident_triage.Remediation.Core.Context.{ServiceTopology, World, context_of}
use incident_triage.Remediation.Core.Proposing.{
  tier_for, decision_on, evaluated, route, Proposed, existing, fresh, propose_for, propose,
  is_known_investigation,
}
use incident_triage.Remediation.Core.Proposing.Routing.{
  IsRouted, IsDecided, stored, propose-IsRouted, propose-Permits, propose-replay,
}
use incident_triage.Policy.{default_policy, evaluate, rules_of, validated}
use incident_triage.Policy.Gates.{Permits}

abbrev incident : IncidentRow
incident = record {
  id = 1;
  status = IncidentStatus.rca_ready;
  severity = "critical";
  service = "checkout";
  environment = "production";
  attempt_count = 1;
  version = 3;
  updated_at = 100;
}

abbrev world : World
world = record {
  incident = some incident;
  remediations = [];
  investigations =
      record {
        id = 2;
        status = InvestigationStatus.completed;
        report = some (record { cause_category = some "resource"; component = some "checkout" });
      }
      ∷ [];
  investigation_ids = 2 ∷ [];
  executions = [];
  engaged_scopes = [];
  next_id = 5;
}

abbrev topology : ServiceTopology
topology = record { services = "checkout" ∷ []; neighborhood = λ s. s ∷ [] }

-- The hash of the examples.
abbrev hash : ℕ → Option ℕ → String → String → Document → String → String
hash incident_id investigation_id action_id version parameters environment = action_id

abbrev new_of : Db → Result Proposed → Db
new_of other (ok (fresh db)) = db
new_of other _ = other

abbrev waiting : Db
waiting =
    new_of (evaluated validator topology default_policy hash "k" 200 incident proposal world)
      (propose validator topology default_policy hash "k" 200 proposal world)

waits : propose validator topology default_policy hash "k" 200 proposal world ≡ ok (fresh waiting)
unfolding propose propose_for route transition move_incident transition_incident_status evaluate
    default_policy validate blast_radius rules_of context_of get_entry catalog
waits = refl

waiting-status : waiting.row.status ≡ RemediationStatus.awaiting_approval
unfolding propose propose_for route transition move_incident transition_incident_status evaluate
    default_policy validate blast_radius rules_of context_of get_entry catalog
waiting-status = refl

propose-IsRouted_example :
    ((is_known_investigation proposal.investigation_id world.investigation_ids ≡ true)
      × (db : Db) × (propose validator topology default_policy hash "k" 200 proposal world
          ≡ ok (fresh db))
      × IsRouted
          (decision_on validator topology default_policy hash 200 incident proposal world).decision
          incident
          db
      × IsDecided "k"
          (decision_on validator topology default_policy hash 200 incident proposal world).decision
          db)
    ⊎ ((is_known_investigation proposal.investigation_id world.investigation_ids ≡ false)
        × (propose validator topology default_policy hash "k" 200 proposal world ≡ err unexpected))
propose-IsRouted_example =
    propose-IsRouted validator topology default_policy hash "k" 200 proposal world incident refl
      refl

propose-Permits_example :
    Permits
      (get_entry proposal.action_id)
      (validated validator (get_entry proposal.action_id) proposal)
      default_policy
      (context_of topology 200 incident proposal (tier_for validator proposal) world)
propose-Permits_example =
    propose-Permits validator topology default_policy hash "k" 200 proposal world incident waiting
      refl refl waits waiting-status

propose-replay_example :
    propose validator topology default_policy hash "k" 300 proposal
      (stored validator topology default_policy hash "k" 200 proposal world incident waiting)
    ≡ ok (existing waiting.row)
propose-replay_example =
    propose-replay validator topology default_policy hash "k" 200 proposal world incident waiting
      300 proposal refl refl waits
