-- ===== src/Verification.antt =====
-- packages/domain/verification.py and packages/incident/verifications.py: whether an executed
-- remediation fixed the incident, decided from observations.
pub mod Policy
pub mod Spec
pub mod Sample
pub mod Decision
pub mod Rows
pub mod Core
pub mod Tests
