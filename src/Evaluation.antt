-- ===== src/Evaluation.antt =====
-- Evaluation cases and the regressions of a version (app/evaluation/service.py): texts and the stored
-- form of a case's expectations, the datasets and their cases, the seeding of them, and the runs.
pub mod Text
pub mod Spec
pub mod Calls
pub mod Cases
pub mod Seed
pub mod Judge
pub mod Regression
pub mod Security
mod Tests
