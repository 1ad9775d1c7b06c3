-- ===== src/Rubric.antt =====
-- The rule engine of backend/app/services/classification/rubric.py. Confidences are thousandths.
pub mod Texts
pub mod Clauses
pub mod Engine
mod Winner
mod Candidates
pub mod Verdict
mod Tests
