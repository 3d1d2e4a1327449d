-- ===== src/Controllers.antt =====
-- internal/controllers: the reconcilers. A reconciler's result holds no requeue time anywhere, so that
-- only its error is modelled.
pub mod StorageProvisioner
pub mod Pod
pub mod Volume
pub mod Claim
pub mod Cache
