-- ===== src/Api.antt =====
-- The resources that the program stores in the cluster.
pub mod Meta
pub mod Cache
pub mod Core
pub mod Provisioner
