-- ===== src/Incident/Evidence/Tests.antt =====
-- packages/incident/service.py: evidence that is registered twice.
use incident_triage.Base.{◌≡◌, refl, true, false, none, [], ◌∷◌}
use incident_triage.Errors.{ok, err, evidence_ref_conflict}
use incident_triage.Incident.Evidence.{
  EvidenceRefRow, Store, answer, register_with, register_evidence_ref,
}
use incident_triage.Incident.Evidence.Naming.{IsNamed, IsStillNamed, register_evidence_ref-IsNamed}

abbrev metrics : EvidenceRefRow
metrics = record {
  id = 1;
  incident_id = 7;
  investigation_id = none;
  evidence_type = "metrics";
  content_hash = "sha256:1";
  source_system = "prometheus";
  collected_at = 100;
}

abbrev store : Store
store = record { incidents = 7 ∷ []; evidence_refs = metrics ∷ []; outbox = metrics ∷ [] }

repeats : register_evidence_ref metrics store ≡ ok (store, answer metrics false)
unfolding register_evidence_ref register_with
repeats = refl

conflicts :
    register_evidence_ref (record metrics { content_hash = "sha256:2" }) store
    ≡ err evidence_ref_conflict
unfolding register_evidence_ref register_with
conflicts = refl

abbrev logs : EvidenceRefRow
logs = record metrics { id = 2; evidence_type = "logs" }

abbrev two : Store
two = record store { evidence_refs = logs ∷ metrics ∷ []; outbox = logs ∷ metrics ∷ [] }

registers : register_evidence_ref logs store ≡ ok (two, answer logs true)
unfolding register_evidence_ref register_with
registers = refl

register_evidence_ref-IsNamed_example : IsNamed logs two × IsStillNamed 1 metrics two
register_evidence_ref-IsNamed_example =
    register_evidence_ref-IsNamed logs store two (answer logs true) 1 metrics registers refl
