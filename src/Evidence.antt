-- ===== src/Evidence.antt =====
-- packages/evidence: what a query for evidence may ask for.
pub mod Errors
pub mod Scope
pub mod Tests
