-- ===== src/Credibility.antt =====
-- src/services/credibility/credibility: how scored predictions move the weights of edges and the scores
-- of sources.
pub mod Updater
pub mod EdgeId
pub mod Store
pub mod Edges
pub mod Pipeline
pub mod Learner
