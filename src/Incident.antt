-- ===== src/Incident.antt =====
-- packages/domain/enums.py, packages/incident/db/models.py and packages/incident/repository.py:
-- an incident's status and row.
pub mod Status
pub mod Row
pub mod Ingestion
pub mod Evidence
