-- ===== src/Investigation/Core/Soundness.antt =====
-- packages/incident/investigations.py: what stays true of an investigation: its steps are numbered
-- without gaps, its hypotheses cite evidence it was shown, and it has a report when it completed.
use incident_triage.Base.{
  ℕ, ◌≡◌, refl, suc, ◌≤◌, inl, inr, String, true, Option, none, some, List, [], ◌∷◌, length, nat_eq,
  contains, contains-append, contains-filter, All, All-map, arith, Bool-cases, to_set, ◌∙◌, sym,
  &&-true,
}
use incident_triage.Investigation.Hypothesis.{HypothesisStatus}
use incident_triage.Investigation.Conclusion.{StoppingCriteria, evidence_ids}
use incident_triage.Investigation.Rows.{
  InvestigationStatus, created, investigating, completed, failed, escalated, StepKind,
  HypothesisRow, StepRow, EvidenceRefRow, RcaReportRow, LinkRow, Db,
}
use incident_triage.Investigation.Core.{
  accessible_evidence, append_step, max_sequence, shown, shows, registered,
}
use incident_triage.Investigation.Core.Updates.{snapshot, find_hypothesis}
use incident_triage.Investigation.Core.Updates.Keeping.{IsGrounded}

abbrev pub In : List ℕ → ℕ → Type 0
In xs e = contains xs e ≡ true

-- The newest step first: the numbers are n, ..., 2, 1.
abbrev pub IsNumbered : List StepRow → Type 0
IsNumbered [] = Unit
IsNumbered (s ∷ steps) = (s.sequence ≡ suc (length steps)) × IsNumbered steps

-- The report and the hypothesis it names.
pub record IsReported (criteria : StoppingCriteria) (accessible : List ℕ)
    (rows : List HypothesisRow) (reports : List RcaReportRow) : Type 0 where
  pub report : RcaReportRow
  pub only : reports ≡ report ∷ []
  pub cited : All (In accessible) (evidence_ids report.rca)
  pub selected : HypothesisRow
  pub found : find_hypothesis report.root_cause_hypothesis rows ≡ some selected
  pub status : selected.status ≡ HypothesisStatus.selected
  pub enough : criteria.min_supporting_evidence ≤ length (to_set (snapshot selected).supporting)

-- What its status says of an investigation's lease, report and hypotheses.
abbrev pub IsSettled :
    StoppingCriteria
    → InvestigationStatus
    → Option String
    → List ℕ
    → List HypothesisRow
    → List RcaReportRow
    → Type 0
IsSettled criteria created owner accessible rows reports = reports ≡ []
IsSettled criteria investigating owner accessible rows reports = reports ≡ []
IsSettled criteria completed owner accessible rows reports =
    (owner ≡ none) × IsReported criteria accessible rows reports
IsSettled criteria failed owner accessible rows reports = (owner ≡ none) × (reports ≡ [])
IsSettled criteria escalated owner accessible rows reports = (owner ≡ none) × (reports ≡ [])

pub record IsSound (criteria : StoppingCriteria) (db : Db) : Type 0 where
  pub numbered : IsNumbered db.steps
  pub grounded : All (IsGrounded (In (accessible_evidence db))) db.hypotheses
  pub settled :
      IsSettled criteria db.row.status db.row.lease_owner
        (accessible_evidence db)
        db.hypotheses
        db.reports

-- Everything in the one list is in the other.
abbrev pub IsWithin : List ℕ → List ℕ → Type 0
IsWithin xs ys = (e : ℕ) → In xs e → In ys e

pub IsGrounded-grow :
    (xs ys : List ℕ) (rows : List HypothesisRow)
    → IsWithin xs ys
    → All (IsGrounded (In xs)) rows
    → All (IsGrounded (In ys)) rows
IsGrounded-grow xs ys rows within a =
    All-map (IsGrounded (In xs)) (IsGrounded (In ys)) rows
      (λ h (l, d). (
        All-map (λ (k : LinkRow). In xs k.evidence_id) (λ (k : LinkRow). In ys k.evidence_id)
            h.links (λ k i. within k.evidence_id i) l,
        d,
      ))
      a

pub IsSettled-grow :
    (criteria : StoppingCriteria) (status : InvestigationStatus) (owner : Option String)
    (xs ys : List ℕ) (rows : List HypothesisRow) (reports : List RcaReportRow)
    → IsWithin xs ys
    → IsSettled criteria status owner xs rows reports
    → IsSettled criteria status owner ys rows reports
IsSettled-grow criteria created owner xs ys rows reports within s = s
IsSettled-grow criteria investigating owner xs ys rows reports within s = s
IsSettled-grow criteria completed owner xs ys rows reports within (o, r) = (
  o,
  record {
    report = r.report;
    only = r.only;
    cited = All-map (In xs) (In ys) (evidence_ids r.report.rca) within r.cited;
    selected = r.selected;
    found = r.found;
    status = r.status;
    enough = r.enough;
  },
)
IsSettled-grow criteria failed owner xs ys rows reports within s = s
IsSettled-grow criteria escalated owner xs ys rows reports within s = s

-- More evidence is accessible after a step and after a registration.
shown-append_step :
    (s : StepRow) (refs : List EvidenceRefRow) (steps : List StepRow) (e : ℕ)
    → contains (shown steps) e ≡ true
    → contains (shown (s ∷ steps)) e ≡ true
shown-append_step s refs steps e h = elim (Bool-cases (shows s.kind)) [
  | inl showing ↦ rw showing (ground (arith, contains-append s.evidence_ids (shown steps) e, h))
  | inr hidden ↦ rw hidden h
]

pub append_step-grow :
    (now : ℕ) (kind : StepKind) (iteration : ℕ) (call_id : Option String) (ids : List ℕ) (db : Db)
    → IsWithin
        (accessible_evidence db)
        (accessible_evidence (append_step now kind iteration call_id ids db))
unfolding accessible_evidence append_step
append_step-grow now kind iteration call_id ids db e h =
    let before = contains-filter (contains (registered db.evidence_refs)) (shown db.steps) e in
    let both =
      &&-true (contains (registered db.evidence_refs) e) (contains (shown db.steps) e)
        (sym before ∙ h) in
    contains-filter (contains (registered db.evidence_refs)) _ e
    ∙ rw (both.0, shown-append_step _ db.evidence_refs db.steps e both.1) refl

pub register-grow :
    (r : EvidenceRefRow) (db : Db)
    → IsWithin
        (accessible_evidence db)
        (accessible_evidence (record db { evidence_refs = r ∷ db.evidence_refs }))
unfolding accessible_evidence
register-grow r db e h =
    let before = contains-filter (contains (registered db.evidence_refs)) (shown db.steps) e in
    let both =
      &&-true (contains (registered db.evidence_refs) e) (contains (shown db.steps) e)
        (sym before ∙ h) in
    contains-filter (contains (registered (r ∷ db.evidence_refs))) (shown db.steps) e
    ∙ ground (arith, both.0, both.1)

max_sequence_lem : (steps : List StepRow) → IsNumbered steps → max_sequence steps ≡ length steps
max_sequence_lem [] n = refl
max_sequence_lem (s ∷ steps) n = omega (arith, n.0, max_sequence_lem steps n.1)

pub append_step-IsNumbered :
    (now : ℕ) (kind : StepKind) (iteration : ℕ) (call_id : Option String) (ids : List ℕ) (db : Db)
    → IsNumbered db.steps
    → IsNumbered (append_step now kind iteration call_id ids db).steps
unfolding append_step
append_step-IsNumbered now kind iteration call_id ids db n =
    (omega (arith, max_sequence_lem db.steps n), n)
