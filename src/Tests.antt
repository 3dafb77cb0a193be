-- ===== src/Tests.antt =====
-- Runs of the model over a small environment in memory, and the theorems at concrete data.
mod Memory
mod Clusters
mod Admission
mod Members
mod Backups
mod Terminal
mod Printing
mod Copies
mod Recovery
mod Rollout
mod Startup
mod Interleaving
