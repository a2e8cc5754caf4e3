-- ===== src/Investigation.antt =====
-- packages/domain/investigation.py: the rules by which hypotheses change and a conclusion of an
-- investigation is accepted.
pub mod Problems
pub mod Hypothesis
pub mod Conclusion
pub mod Turn
pub mod Rows
pub mod Core
pub mod Tests
