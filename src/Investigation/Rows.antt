-- ===== src/Investigation/Rows.antt =====
-- packages/incident/db/models.py and packages/domain/investigation.py: the rows that the commands
-- on one investigation read and write: its row, its trace, its hypotheses with their links to
-- evidence, its report, the evidence registered for its incident, and the incident. A hypothesis
-- is identified by its key, which is unique in an investigation. Columns that no command reads
-- back (the model's names and settings, free texts, the result document) are left out. The newest
-- step and event stand first.
use incident_triage.Base.{ℕ, String, Bool, true, false, Option, List}
use incident_triage.Incident.Status.{IncidentStatus}
use incident_triage.Incident.Row.{IncidentRow}
use incident_triage.Investigation.Hypothesis.{HypothesisStatus}
use incident_triage.Investigation.Conclusion.{RcaDraft}

pub data InvestigationStatus : Type 0 where
  created investigating completed failed escalated : InvestigationStatus

-- `TERMINAL_INVESTIGATION_STATUSES`
abbrev pub is_terminal : InvestigationStatus → Bool
is_terminal created = false
is_terminal investigating = false
is_terminal _ = true

pub data StepKind : Type 0 where
  context model_turn tool_call hypothesis_update conclusion_rejected : StepKind
  invalid_call feedback model_error outcome : StepKind

pub record Usage : Type 0 where
  pub input_tokens : ℕ
  pub output_tokens : ℕ
  pub cache_read_tokens : ℕ
  pub cache_creation_tokens : ℕ

pub record InvestigationRow : Type 0 where
  pub id : ℕ
  pub incident_id : ℕ
  pub attempt_number : ℕ
  pub status : InvestigationStatus
  pub iteration_count : ℕ
  pub tool_call_count : ℕ
  pub evidence_count : ℕ
  pub usage : Usage
  pub ended_because : Option String
  pub selected_hypothesis : Option String
  pub lease_owner : Option String
  pub lease_expires_at : Option ℕ
  pub created_at : ℕ
  pub started_at : Option ℕ
  pub completed_at : Option ℕ
  pub updated_at : ℕ

pub data Relation : Type 0 where
  supports contradicts : Relation

pub record LinkRow : Type 0 where
  pub evidence_id : ℕ
  pub relation : Relation

pub record HypothesisRow : Type 0 where
  pub key : String
  pub description : String
  pub status : HypothesisStatus
  pub confidence : Option ℕ
  pub cause_category : Option String
  pub component : Option String
  pub links : List LinkRow
  pub created_at : ℕ
  pub updated_at : ℕ

-- Of a step's payload, the evidence that it showed.
pub record StepRow : Type 0 where
  pub sequence : ℕ
  pub iteration : ℕ
  pub kind : StepKind
  pub call_id : Option String
  pub evidence_ids : List ℕ
  pub created_at : ℕ

pub record EvidenceRefRow : Type 0 where
  pub id : ℕ
  pub evidence_type : String

pub record RcaReportRow : Type 0 where
  pub root_cause_hypothesis : String
  pub rca : RcaDraft
  pub confidence : ℕ
  pub supporting_evidence : List ℕ
  pub generated_at : ℕ

-- Why an incident's status changed.
pub data Change : Type 0 where
  investigation_started reinvestigation_after_failed_verification root_cause_selected : Change
  investigation_ended : (reason_code : String) → Change

pub data Event : Type 0 where
  incident_status_changed : (from_status to_status : IncidentStatus) → Change → ℕ → Event
  investigation_started_event : (investigation_id attempt_number : ℕ) → Event
  investigation_completed : (selected_hypothesis : String) → Event
  investigation_failed : InvestigationStatus → (reason_code : String) → Event

pub record Db : Type 0 where
  pub row : InvestigationRow
  pub steps : List StepRow
  pub hypotheses : List HypothesisRow
  pub reports : List RcaReportRow
  pub evidence_refs : List EvidenceRefRow
  pub incident : IncidentRow
  pub outbox : List Event
