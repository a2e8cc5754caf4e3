-- ===== src/Investigation/Core/Outcome.antt =====
-- packages/incident/investigations.py: `complete` and `escalate`. The incident is read without a
-- lock: `stored` is its row when the guarded update runs.
use incident_triage.Base.{
  ℕ, String, not, Option, none, some, List, [], ◌∷◌, ◌++◌, map, ◌==◌, nat_eq, string_eq,
  if◌then◌else◌,
}
use incident_triage.Errors.{
  Result, ok, err, ◌>>=◌, ◌>>◌, raise_if, lease_lost, concurrent_modification, unexpected,
}
use incident_triage.Incident.Status.{IncidentStatus, incident_status_eq, rca_ready, escalated}
use incident_triage.Incident.Row.{IncidentRow, transition_incident_status}
use incident_triage.Investigation.Hypothesis.{HypothesisStatus}
use incident_triage.Investigation.Conclusion.{
  StoppingCriteria, FinalInvestigationResult, Unmet, evaluate_conclusion, ungrounded_ids,
  evidence_ids,
}
use incident_triage.Investigation.Rows.{
  InvestigationStatus, StepKind, HypothesisRow, EvidenceRefRow, RcaReportRow, Change,
  root_cause_selected, investigation_ended, Event, incident_status_changed, investigation_completed,
  investigation_failed, Db,
}
use incident_triage.Investigation.Core.{holds, append_step, accessible_evidence}
use incident_triage.Investigation.Core.Updates.{
  snapshot, snapshots, find_hypothesis, put_hypothesis,
}

abbrev pub emit : Event → Db → Db
emit e db = record db { outbox = e ∷ db.outbox }

-- `_evidence_types`
abbrev pub evidence_types : List EvidenceRefRow → List (ℕ × String)
evidence_types = map (λ r. (r.id, r.evidence_type))

-- `_move_incident`
unfoldable pub move_incident : IncidentRow → ℕ → IncidentStatus → Change → Db → Result Db
move_incident stored now to_status reason db =
    if db.incident.status == IncidentStatus.investigating
    then elim (transition_incident_status stored db.incident to_status now) [
      | none ↦ err concurrent_modification
      | some incident ↦ ok (
          emit
            (incident_status_changed IncidentStatus.investigating incident.status reason
              incident.version)
            (record db { incident = incident }))
    ]
    else ok db

-- The row of an investigation that ends.
abbrev pub end_row : InvestigationStatus → ℕ → Db → Db
end_row status now db = record db {
  row = record (db.row) {
    status = status;
    completed_at = some now;
    updated_at = now;
    lease_owner = none;
    lease_expires_at = none;
  };
}

pub data Objection : Type 0 where
  ungrounded : List ℕ → Objection
  unmet : Unmet → Objection

abbrev pub ungrounded_objection : List ℕ → List Objection
ungrounded_objection [] = []
ungrounded_objection (e ∷ ids) = ungrounded (e ∷ ids) ∷ []

-- Everything that `complete` holds against a conclusion.
unfoldable pub objections : StoppingCriteria → FinalInvestigationResult → Db → List Objection
objections criteria result db =
    ungrounded_objection (ungrounded_ids (evidence_ids result.rca) (accessible_evidence db))
    ++ map unmet (
        evaluate_conclusion result (snapshots db.hypotheses) (evidence_types db.evidence_refs)
          criteria)

unfoldable pub reject_conclusion : ℕ → String → ℕ → Db → Db
reject_conclusion iteration call_id now db =
    append_step now StepKind.conclusion_rejected iteration (some call_id) [] db

-- The hypothesis that is selected, and the report on it.
abbrev pub choose : (ℕ → ℕ) → FinalInvestigationResult → ℕ → HypothesisRow → HypothesisRow
choose decimal result now selected = record selected {
  status = HypothesisStatus.selected;
  confidence = some (decimal result.confidence);
  updated_at = now;
}

abbrev pub report_on : FinalInvestigationResult → ℕ → HypothesisRow → RcaReportRow
report_on result now selected = record {
  root_cause_hypothesis = selected.key;
  rca = result.rca;
  confidence = result.confidence;
  supporting_evidence = (snapshot selected).supporting;
  generated_at = now;
}

-- What an accepted conclusion writes of its investigation.
abbrev pub conclude : (ℕ → ℕ) → ℕ → String → FinalInvestigationResult → ℕ → HypothesisRow → Db → Db
conclude decimal iteration call_id result now selected db =
    append_step now StepKind.outcome iteration (some call_id) [] (
      end_row InvestigationStatus.completed now (record db {
        hypotheses = put_hypothesis (choose decimal result now selected) db.hypotheses;
        reports = report_on result now selected ∷ db.reports;
        row = record (db.row) { selected_hypothesis = some selected.key };
      }))

-- The conclusion is accepted, with `selected` as the root cause.
unfoldable pub accept :
    IncidentRow
    → (ℕ → ℕ)
    → ℕ
    → String
    → FinalInvestigationResult
    → ℕ
    → Option HypothesisRow
    → Db
    → Result Db
accept stored decimal iteration call_id result now none db = err unexpected
accept stored decimal iteration call_id result now (some selected) db =
    move_incident stored now rca_ready root_cause_selected
      (conclude decimal iteration call_id result now selected db)
    >>= λ moved. ok (emit (investigation_completed selected.key) moved)

-- `complete`; with the objections, of which there are none when it is accepted.
unfoldable pub complete_with :
    IncidentRow
    → (ℕ → ℕ)
    → ℕ
    → String
    → FinalInvestigationResult
    → ℕ
    → List Objection
    → Db
    → Result (Db × List Objection)
complete_with stored decimal iteration call_id result now (o ∷ os) db =
    ok (reject_conclusion iteration call_id now db, o ∷ os)
complete_with stored decimal iteration call_id result now [] db =
    accept stored decimal iteration call_id result now
      (find_hypothesis result.selected_hypothesis_key db.hypotheses) db
    >>= λ done. ok (done, [])

unfoldable pub complete :
    IncidentRow
    → StoppingCriteria
    → (ℕ → ℕ)
    → String
    → ℕ
    → String
    → FinalInvestigationResult
    → ℕ
    → Db
    → Result (Db × List Objection)
complete stored criteria decimal owner iteration call_id result now db = do
  raise_if (not (holds owner db.row)) lease_lost
  complete_with stored decimal iteration call_id result now (objections criteria result db) db

-- The outcomes that `escalate` takes.
pub data Ending : Type 0 where
  inconclusive technical_failure : Ending

abbrev pub ending_status : Ending → InvestigationStatus
ending_status inconclusive = InvestigationStatus.escalated
ending_status technical_failure = InvestigationStatus.failed

unfoldable pub escalate :
    IncidentRow → String → ℕ → Ending → String → Option String → ℕ → Db → Result Db
escalate stored owner iteration ending reason_code call_id now db = do
  raise_if (not (holds owner db.row)) lease_lost
  let ended =
      end_row (ending_status ending) now
        (record db { row = record (db.row) { ended_because = some reason_code } })
  moved ←
      move_incident stored now escalated (investigation_ended reason_code)
        (append_step now StepKind.outcome iteration call_id [] ended)
  ok (emit (investigation_failed (ending_status ending) reason_code) moved)
