-- ===== src/Remediation/Core/Deciding.antt =====
-- packages/incident/remediations.py: what a committed `decide_approval` has checked and recorded,
-- and its repetition.
use incident_triage.Base.{
  ℕ, ◌≡◌, refl, Bool, true, false, Option, none, some, List, arith, subst, sym, ap, Bool-cases,
  Option-cases, inl, inr, string_eq, option_eq, nat_eq, ==→eq,
}
use incident_triage.Errors.{ok, After, After-map, After-bind, After-if}
use incident_triage.Incident.Status.{IncidentStatus}
use incident_triage.Remediation.Status.{RemediationStatus, remediation_status_eq, can_transition}
use incident_triage.Remediation.Rows.{DecisionRow, ApprovalRow, TimelineEvent, RemediationRow, Db}
use incident_triage.Remediation.Core.{transition, move_incident, finish_cancelled}
use incident_triage.Remediation.Core.Approval.{
  Decision, settle_approval, new_approval, decide_first, decide_approval, is_awaiting,
  is_mismatched, lacks_role, approves_own, decide_with, decide_approval_with, is_repeat,
  same_decision, wanted,
}
use incident_triage.Remediation.Core.Safety.{Same, move_incident-Same}

-- The status that a decision leads to.
abbrev pub decided_status : Bool → RemediationStatus
decided_status true = RemediationStatus.approved
decided_status false = RemediationStatus.cancelled

-- The decision is on record, and the status follows it.
abbrev IsRecorded : Decision → Db → Type 0
IsRecorded d db =
    ((a : ApprovalRow) × (db.approval ≡ some a) × (is_repeat d a ≡ true))
    × (db.row.status ≡ decided_status d.approve)

IsRecorded-Same : (d : Decision) (db db' : Db) → IsRecorded d db → Same db db' → IsRecorded d db'
IsRecorded-Same d db db' r same = rw (same.0, same.1) r

move_incident-IsRecorded :
    (d : Decision) (now : ℕ) (from_statuses : List IncidentStatus) (to_status : IncidentStatus)
    (db : Db)
    → IsRecorded d db
    → After (IsRecorded d) (move_incident now from_statuses to_status db)
move_incident-IsRecorded d now from_statuses to_status db r =
    After-map (Same db) (IsRecorded d) (move_incident now from_statuses to_status db)
      (λ db' same. IsRecorded-Same d db db' r same)
      (move_incident-Same now from_statuses to_status db)

transition-IsRecorded :
    (d : Decision) (now : ℕ) (to_status : RemediationStatus) (event : TimelineEvent) (db : Db)
    → to_status ≡ decided_status d.approve
    → ((a : ApprovalRow) × (db.approval ≡ some a) × (is_repeat d a ≡ true))
    → After (IsRecorded d) (transition now to_status event db)
unfolding transition
transition-IsRecorded d now to_status event db e r =
    elim (Bool-cases (can_transition db.row.status to_status)) [
      | inl allowed ↦ rw (allowed, After) (r, e)
      | inr refused ↦ rw (refused, After) tt
    ]

same_wanted : (b : Bool) → same_decision (wanted b) (wanted b) ≡ true
same_wanted true = refl
same_wanted false = refl

-- The row that `settle_approval` adds repeats the decision.
new_approval-is_repeat :
    (d : Decision) (a : ApprovalRow)
    → a.approver ≡ d.approver
    → a.decision ≡ wanted d.approve
    → a.proposal_hash ≡ d.proposal_hash
    → is_repeat d a ≡ true
new_approval-is_repeat d a same_approver same hash = ground (
  arith,
  same_wanted d.approve,
  ==→eq a.approver d.approver,
  string_eq.beq_iff a.approver d.approver,
  string_eq.beq_iff a.proposal_hash d.proposal_hash,
)

settle_approval-IsRecorded :
    (now : ℕ) (d : Decision) (decision : DecisionRow) (db : Db)
    → d.proposal_hash ≡ db.row.proposal_hash
    → After (IsRecorded d) (settle_approval now d decision db)
unfolding settle_approval finish_cancelled
settle_approval-IsRecorded now d decision db h =
    let recorded : (a : ApprovalRow) × (some (new_approval now d decision db.row) ≡ some a)
        × (is_repeat d a ≡ true) =
      (
        new_approval now d decision db.row,
        refl,
        new_approval-is_repeat d (new_approval now d decision db.row) refl refl (sym h),
      ) in
    After-if (IsRecorded d) d.approve _ _
      (λ yes_.
        After-bind (IsRecorded d) (IsRecorded d) _ _
          (λ approved r. move_incident-IsRecorded d now _ _ _ r)
          (transition-IsRecorded d now RemediationStatus.approved _ _ (sym (ap decided_status yes_))
            recorded))
      (λ no_.
        After-bind (IsRecorded d) (IsRecorded d) _ _
          (λ ended r. move_incident-IsRecorded d now _ _ _ r)
          (transition-IsRecorded d now RemediationStatus.cancelled _ _ (sym (ap decided_status no_))
            recorded))

-- What a committed first decision has checked.
abbrev IsDecided : Decision → Db → Db → Type 0
IsDecided d db db' =
    (db.row.status ≡ RemediationStatus.awaiting_approval)
    × (d.proposal_hash ≡ db.row.proposal_hash)
    × (some d.policy_decision_id ≡ db.row.policy_decision_id)
    × ((decision : DecisionRow) × (db.decision ≡ some decision) × (lacks_role d decision ≡ false))
    × (approves_own d db.row ≡ false)
    × IsRecorded d db'

decide_with-IsDecided :
    (now : ℕ) (d : Decision) (found : Option DecisionRow) (db : Db)
    → db.decision ≡ found
    → db.row.status ≡ RemediationStatus.awaiting_approval
    → d.proposal_hash ≡ db.row.proposal_hash
    → some d.policy_decision_id ≡ db.row.policy_decision_id
    → After (IsDecided d db) (decide_with now d found db)
unfolding decide_with
decide_with-IsDecided now d none db e s h p = tt
decide_with-IsDecided now d (some decision) db e s h p = elim (Bool-cases (lacks_role d decision)) [
  | inl lacks ↦ rw (lacks, After) tt
  | inr has ↦ elim (Bool-cases (approves_own d db.row)) [
    | inl own ↦ rw (has, own, After) tt
    | inr other ↦
        rw (has, other, After)
          (After-map (IsRecorded d) (IsDecided d db) (settle_approval now d decision db)
            (λ db' r. (s, h, p, (decision, e, has), other, r))
            (settle_approval-IsRecorded now d decision db h))
  ]
]

matched :
    (d : Decision) (row : RemediationRow)
    → is_mismatched d row ≡ false
    → (d.proposal_hash ≡ row.proposal_hash) × (some d.policy_decision_id ≡ row.policy_decision_id)
matched d row h = ground (
  arith,
  ==→eq d.proposal_hash row.proposal_hash,
  ==→eq (some d.policy_decision_id) row.policy_decision_id,
)

decide_first-IsDecided :
    (now : ℕ) (d : Decision) (db : Db) → After (IsDecided d db) (decide_first now d db)
unfolding decide_first
decide_first-IsDecided now d db = elim (Bool-cases (is_awaiting db.row)) [
  | inr settled ↦ rw (settled, After) tt
  | inl awaits ↦ elim (Bool-cases (is_mismatched d db.row)) [
    | inl other ↦ rw (awaits, other, After) tt
    | inr same ↦
        let m = matched d db.row same in
        rw (awaits, same, After)
          (decide_with-IsDecided now d db.decision db refl
            (==→eq db.row.status RemediationStatus.awaiting_approval awaits) m.0 m.1)
  ]
]

decide_approval_with-IsDecided :
    (now : ℕ) (d : Decision) (approval : Option ApprovalRow) (db : Db)
    → approval ≡ none
    → After (IsDecided d db) (decide_approval_with now d approval db)
unfolding decide_approval_with
decide_approval_with-IsDecided now d none db e = decide_first-IsDecided now d db
decide_approval_with-IsDecided now d (some a) db e = ground arith

-- A first decision that commits was made while the remediation awaited it, names its proposal's
-- hash and its policy decision, and if it approves, then by an approver who has a required role
-- and is not the operator who proposed it; the remediation is approved or cancelled as it says.
pub decide_approval-checks :
    (now : ℕ) (d : Decision) (db db' : Db)
    → db.approval ≡ none
    → decide_approval now d db ≡ ok db'
    → (db.row.status ≡ RemediationStatus.awaiting_approval)
      × (d.proposal_hash ≡ db.row.proposal_hash)
      × (some d.policy_decision_id ≡ db.row.policy_decision_id)
      × ((decision : DecisionRow) × (db.decision ≡ some decision) × (lacks_role d decision ≡ false))
      × (approves_own d db.row ≡ false)
      × (db'.row.status ≡ decided_status d.approve)
unfolding decide_approval decide_approval_with
decide_approval-checks now d db db' first h =
    let (s, p, q, r, o, e) =
      subst (After (IsDecided d db)) h
        (decide_approval_with-IsDecided now d db.approval db first) in
    (s, p, q, r, o, e.1)

-- A decision that committed can be delivered again: it then changes nothing.
pub decide_approval-repeat :
    (now later : ℕ) (d : Decision) (db db' : Db)
    → decide_approval now d db ≡ ok db'
    → decide_approval later d db' ≡ ok db'
unfolding decide_approval decide_approval_with
decide_approval-repeat now later d db db' h = elim (Option-cases db.approval) [
  | inl first ↦
      let decided =
        subst (After (IsDecided d db)) h
          (decide_approval_with-IsDecided now d db.approval db first) in
      let (a, e, same) = decided.5.0 in rw (e, same) refl
  | inr (a, e) ↦ ground arith
]
