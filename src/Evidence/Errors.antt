-- ===== src/Evidence/Errors.antt =====
-- packages/evidence/errors.py: the errors of a query.
pub data EvidenceError : Type 0 where
  incident_not_found invalid_query scope_violation : EvidenceError
  -- a time before the least that Python can hold
  overflow : EvidenceError

pub data Checked {ℓ} (A : Type ℓ) : Type ℓ where
  refused : EvidenceError → Checked A
  granted : A → Checked A
