-- ===== src/Correlation.antt =====
-- packages/domain/correlation_engine.py: which open incident a new alert joins, if any.
pub mod Rules
pub mod Engine
pub mod Default
pub mod Tests
