-- ===== src/Sync.antt =====
-- internal/ksync: the volumes of a cache, registered in the cluster.
pub mod Volumes
pub mod Commit
pub mod Lifecycle
pub mod Updater
pub mod Store
pub mod History
