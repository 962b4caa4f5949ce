-- ===== src/Cleansing.antt =====
-- src/services/cleansing/cleansing: articles are dropped as near duplicates or joined to a cluster of their
-- event, and a cluster that is due becomes one event.
pub mod Clustering
pub mod Dedup
pub mod Merge
pub mod Store
pub mod Pipeline
mod Tests
