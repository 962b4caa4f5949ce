-- ===== src/Prediction.antt =====
-- src/services/prediction/prediction: how the firing edges of an event window become a prediction.
pub mod Edge
pub mod Decision
pub mod Context
pub mod Repository
pub mod Stance
pub mod Propagation
pub mod Sweep
mod Tests
