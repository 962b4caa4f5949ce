-- ===== src/Verification.antt =====
-- src/services/verification/verification: how a prediction is scored.
pub mod Scoring
pub mod Sampled
pub mod Intraday
pub mod Evaluations
pub mod Pipeline
mod Tests
