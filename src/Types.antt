-- ===== src/Types.antt =====
-- The custom resources of api/v1alpha1: their records, and the objects and names derived from them.
pub mod Cluster
pub mod Member
pub mod Backup
pub mod Pretty
