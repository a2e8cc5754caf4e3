-- ===== src/Remediation/Status.antt =====
-- packages/domain/remediation.py: a remediation's status and the changes that are allowed.
use incident_triage.Base.{
  arith, Bool, true, false, ◌≡◌, List, [], ◌∷◌, contains, Eq, discrete_beq, discrete_beq_iff,
}

pub data RemediationStatus : Type 0 where
  proposed policy_rejected awaiting_approval approved : RemediationStatus
  executing executed failed cancelled : RemediationStatus

abbrev pub RemediationStatus-discrete : Discrete RemediationStatus
RemediationStatus-discrete = hlevel

instance abbrev pub remediation_status_eq : Eq RemediationStatus
remediation_status_eq = record {
  beq = discrete_beq RemediationStatus-discrete;
  beq_iff = discrete_beq_iff RemediationStatus-discrete;
}

abbrev pub is_terminal : RemediationStatus → Bool
is_terminal policy_rejected = true
is_terminal executed = true
is_terminal failed = true
is_terminal cancelled = true
is_terminal _ = false

abbrev pub is_attempted : RemediationStatus → Bool
is_attempted executing = true
is_attempted executed = true
is_attempted failed = true
is_attempted _ = false

-- `ALLOWED_TRANSITIONS.get(from_status, frozenset())`
abbrev pub allowed_transitions : RemediationStatus → List RemediationStatus
allowed_transitions proposed = policy_rejected ∷ awaiting_approval ∷ []
allowed_transitions awaiting_approval = approved ∷ cancelled ∷ []
allowed_transitions approved = executing ∷ cancelled ∷ failed ∷ []
allowed_transitions executing = executed ∷ failed ∷ executing ∷ cancelled ∷ []
allowed_transitions _ = []

abbrev pub can_transition : RemediationStatus → RemediationStatus → Bool
can_transition from_status to_status = contains (allowed_transitions from_status) to_status

-- No change leads out of a terminal status.
pub terminal_absorbing :
    (s t : RemediationStatus) → is_terminal s ≡ true → can_transition s t ≡ false
terminal_absorbing s t h = ground arith
