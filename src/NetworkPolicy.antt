-- ===== src/NetworkPolicy.antt =====
-- The NetworkPolicy part of the operator (operator/internal/controller/networkpolicy).
pub mod Status
pub mod Batch
pub mod Provider
pub mod Disk
pub mod Json
pub mod Clean
pub mod Policies
pub mod Sources
pub mod Git
pub mod Plan
pub mod Single
pub mod Removed
pub mod Drift
pub mod Periodic
pub mod Run
pub mod Kustomization
