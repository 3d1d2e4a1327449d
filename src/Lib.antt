-- ===== src/Lib.antt =====
-- k8storagex: storage for build caches in Kubernetes. A manager runs controllers that provision volumes
-- by pods, and each node has a store of layers whose volumes are registered in Cache resources.
--
-- The parts and their files:
-- * api/v1alpha1 (Api): the Cache and StorageProvisioner resources, and of Kubernetes' own types the
--   fields that the program reads or writes (Api/Meta, Api/Core).
-- * internal/ksync/sync.go (Sync): the edits of a Cache's status. Sync/Volumes has the map of nodes and
--   volumes (addVolume, removeVolume, upsertNode, findVolume), Sync/Commit the commit lock
--   (commitInProgress) and the edits of RegisterCacheVolume, PrepareCommit and UnregisterCacheVolume,
--   Sync/Updater the read, edit and write that updateCache retries. Sync/History runs edits of several
--   nodes in any order.
-- * internal/layerfs/store.go, mount.go and push.go (Layers): the layer store of a node. Layers has the
--   options and the interface, Layers/Options the checks and names, Layers/Mount and Layers/Unmount the
--   two methods with their deferred functions, the commit and the push.
-- * internal/layerfs/prune.go (Prune): the deletion of images. Prune/Delete is Prune and deleteImages,
--   Prune/Remove removeImage and untagImage, Prune/References getImage, Prune/Parents getParent and
--   getChildren, Prune/History historiesDiffer.
-- * internal/ksync/syncedstore.go (Sync/Store): Mount and Unmount of a layer store, registered in the
--   cluster.
-- * cmd/layerfs (Commands): the commands mount, umount and prune over the store that they open.
-- * internal/controllers/storageprovisioner_registry.go (Registry): the provisioners by name, which
--   internal/controllers/storageprovisioner_controller.go (Controllers/StorageProvisioner) fills and the
--   other controllers read.
-- * internal/controllers/pod_controller.go (Controllers/Pod): deletes the claims of completed pods.
-- * internal/controllers/persistentvolume_controller.go (Controllers/Volume): frees the storage of deleted
--   volumes by a job; Volume/Claims is canDeprovision, Volume/Job deprovisionVolume, Volume/Node what
--   reads a volume's place.
-- * internal/controllers/persistentvolumeclaim_controller.go (Controllers/Claim): provisions volumes for
--   claims; Claim/Guard is shouldProvision, Claim/Provision provision, Claim/Reconcile the rest.
-- * internal/controllers/cache_controller.go (Controllers/Cache): cleans up behind deleted caches.
-- * internal/utils (Utils): jobs (pod.go, deleteresource.go and podmapper.go in Utils/Jobs), conditions,
--   annotations, pod templates, names. internal/template/template.go (Template): substitution.
--
-- How they are modelled: a call of the cluster is a function on a world of any type, so that other
-- clients may act between any two calls (Cluster). Errors are values with a reason and a message; a Go
-- `error` that may be nil is an Option. What Go writes through a pointer comes back beside the result. A
-- time is a number of nanoseconds and an argument, one reading for each edit; what the server keeps of a
-- status, whose times it stores to the second, is a parameter (Sync/Updater/Server). Maps are association
-- lists, read by lookup. Counters are the bit patterns of an int64 and wrap. Log output is left out,
-- and texts are given without the quotes of %q. A nil pointer that is followed ends the process; in
-- Controllers/Claim it is an error value.
--
-- What is not under this repository is a parameter: the client (Cluster.Client), the retry on a conflict
-- (Cluster.RetryOnConflict), the event recorder (Utils.Jobs.Recorder), containers/storage (Storage), buildah
-- and the system calls (Layers.Builders.Host), what the commands call (Commands.Platform), and what else is
-- called of Go's standard library and of third-party packages (Library). References to images are of any
-- type.
--
-- Each loop is structural but one: removeImage follows parents, and is given a number of rounds
-- (remove_parents); what is left over when they are used up is `unfinished`. Each parent's history is an
-- entry shorter, so as many rounds as the longest history has entries are enough. How often a conflict is
-- retried is up to the retry that is the parameter. A panic of the pruning is the outcome `panicked`; in
-- Layers/Mount a nil reference, which is followed before anything was changed, is an error value.
--
-- Not modelled: the registration of flags, the signal handler and the wiring of controllers (cmd), which
-- compute nothing; the method Free and the Prune of the synchronized store, which are those of the store
-- that it wraps; generated code.
pub mod Base
pub mod Api
pub mod Cluster
pub mod Template
pub mod Library
pub mod Registry
pub mod Layers
pub mod Utils
pub mod Controllers
pub mod Sync
pub mod Tests
pub mod Storage
pub mod Prune
pub mod Commands
