-- ===== src/Remediation.antt =====
-- packages/domain/remediation.py, packages/remediation and packages/incident/remediations.py:
-- proposals for actions of a catalog, and what becomes of them.
pub mod Catalog
pub mod Proposal
pub mod Status
pub mod Rows
pub mod Core
pub mod Samples
pub mod Tests
