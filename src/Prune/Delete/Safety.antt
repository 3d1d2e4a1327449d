-- ===== src/Prune/Delete/Safety.antt =====
-- Which images `Prune` deletes.
use k8storagex.Storage.{Storage}
use k8storagex.Prune.Delete.Removable.{Removable}
