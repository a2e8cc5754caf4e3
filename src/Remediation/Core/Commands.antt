-- ===== src/Remediation/Core/Commands.antt =====
-- packages/incident/remediations.py: every command keeps a remediation safe.
use incident_triage.Base.{
  ℕ, ◌+◌, ◌≡◌, true, Option, none, some, arith, Bool-cases, inl, inr, &&-true, ltb,
}
use incident_triage.Errors.{After, After-bind}
use incident_triage.Remediation.Status.{RemediationStatus, remediation_status_eq}
use incident_triage.Remediation.Rows.{DecisionRow, ApprovalRow, ApprovalStatus, TimelineEvent, Db}
use incident_triage.Remediation.Core.{transition}
use incident_triage.Remediation.Core.Approval.{
  Decision, settle_approval, decide_first, decide_approval, is_overdue, expire_approval, cancel,
  is_withdrawable, set_approval, add_approval, is_awaiting, is_mismatched, lacks_role, approves_own,
  decide_with, decide_approval_with, is_repeat,
}
use incident_triage.Remediation.Core.Safety.{IsSafe, move_incident-IsSafe, finish_cancelled-IsSafe}

-- A decision is added while nothing has been attempted.
add_approval-IsSafe :
    (a : ApprovalRow) (s : ApprovalStatus) (db : Db)
    → db.row.execution_attempts ≡ 0
    → IsSafe db
    → IsSafe (set_approval s (add_approval a db))
add_approval-IsSafe a s db none_made v = ground arith

approve-IsSafe :
    (now : ℕ) (db : Db)
    → IsSafe db
    → db.row.execution_attempts ≡ 0
    → After IsSafe (transition now RemediationStatus.approved TimelineEvent.approved db)
unfolding transition
approve-IsSafe now db v e = ground arith

settle_approval-IsSafe :
    (now : ℕ) (d : Decision) (decision : DecisionRow) (db : Db)
    → db.row.execution_attempts ≡ 0
    → IsSafe db
    → After IsSafe (settle_approval now d decision db)
unfolding settle_approval
settle_approval-IsSafe now d decision db none_made v = elim (Bool-cases d.approve) [
  | inl yes_ ↦
      rw (yes_, After)
        (After-bind IsSafe IsSafe _ _ (λ approved w. move_incident-IsSafe now _ _ _ w)
          (approve-IsSafe now _ (add_approval-IsSafe _ _ db none_made v) none_made))
  | inr no_ ↦
      rw (no_, After)
        (finish_cancelled-IsSafe now _ _ _ _ _ (add_approval-IsSafe _ _ db none_made v))
]

none_attempted : (db : Db) → is_awaiting db.row ≡ true → IsSafe db → db.row.execution_attempts ≡ 0
none_attempted db awaiting v = ground arith

pub expire_approval-IsSafe :
    (now approval_timeout : ℕ) (db : Db)
    → IsSafe db
    → After IsSafe (expire_approval now approval_timeout db)
unfolding expire_approval
expire_approval-IsSafe now approval_timeout db v =
    elim (Bool-cases (is_overdue now approval_timeout db)) [
      | inl late ↦
          rw (late, After)
            (finish_cancelled-IsSafe now _ _ _ _ _ (
              add_approval-IsSafe _ _ db
                (none_attempted db
                  (&&-true (is_awaiting db.row) (ltb (db.row.updated_at + approval_timeout) now)
                    late).0
                  v)
                v))
      | inr fine ↦ rw (fine, After) v
    ]

decide_with-IsSafe :
    (now : ℕ) (d : Decision) (decision : Option DecisionRow) (db : Db)
    → is_awaiting db.row ≡ true
    → IsSafe db
    → After IsSafe (decide_with now d decision db)
unfolding decide_with
decide_with-IsSafe now d none db awaiting v = tt
decide_with-IsSafe now d (some decision) db awaiting v = elim (Bool-cases (lacks_role d decision)) [
  | inl lacking ↦ rw (lacking, After) tt
  | inr eligible ↦ elim (Bool-cases (approves_own d db.row)) [
    | inl own ↦ rw (eligible, own, After) tt
    | inr another ↦
        rw (eligible, another, After)
          (settle_approval-IsSafe now d decision db (none_attempted db awaiting v) v)
  ]
]

decide_first-IsSafe :
    (now : ℕ) (d : Decision) (db : Db) → IsSafe db → After IsSafe (decide_first now d db)
unfolding decide_first
decide_first-IsSafe now d db v = elim (Bool-cases (is_awaiting db.row)) [
  | inr settled ↦ rw (settled, After) tt
  | inl awaiting ↦ elim (Bool-cases (is_mismatched d db.row)) [
    | inl stale ↦ rw (awaiting, stale, After) tt
    | inr bound ↦ rw (awaiting, bound, After) (decide_with-IsSafe now d db.decision db awaiting v)
  ]
]

decide_approval_with-IsSafe :
    (now : ℕ) (d : Decision) (approval : Option ApprovalRow) (db : Db)
    → IsSafe db
    → After IsSafe (decide_approval_with now d approval db)
unfolding decide_approval_with
decide_approval_with-IsSafe now d none db v = decide_first-IsSafe now d db v
decide_approval_with-IsSafe now d (some existing) db v = elim (Bool-cases (is_repeat d existing)) [
  | inl again ↦ rw (again, After) v
  | inr other ↦ rw (other, After) tt
]

pub decide_approval-IsSafe :
    (now : ℕ) (d : Decision) (db : Db) → IsSafe db → After IsSafe (decide_approval now d db)
unfolding decide_approval
decide_approval-IsSafe now d db v = decide_approval_with-IsSafe now d db.approval db v

pub cancel-IsSafe : (now : ℕ) (db : Db) → IsSafe db → After IsSafe (cancel now db)
unfolding cancel
cancel-IsSafe now db v = elim (Bool-cases (is_withdrawable db.row.status)) [
  | inl allowed ↦ rw (allowed, After) (finish_cancelled-IsSafe now _ _ _ _ db v)
  | inr refused ↦ rw (refused, After) tt
]
