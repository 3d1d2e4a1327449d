-- ===== src/Tests.antt =====
-- Concrete objects on which the witnesses run the code.
pub mod Caches
pub mod Clusters
pub mod Provisioners
pub mod Helpers
pub mod Jobs
pub mod Claims
pub mod Resets
pub mod Releases
pub mod Removals
pub mod Images
pub mod Layers
pub mod Commands
use k8storagex.Base.{
  ℕ, ◌≡◌, ◌≢◌, arith, ◌==◌, string_eq, String, true, false, Option, none, some, List, [], ◌∷◌,
}
use k8storagex.Base.Dict.{Dict}
use k8storagex.Api.Meta.{NamespacedName, ObjectMeta}
use k8storagex.Api.Cache.{Cache, NodeStatus, VolumeStatus, cache_phase_ready}

abbrev pub demo : NamespacedName
demo = record { name = "demo"; namespace = "default" }

abbrev pub demo_meta : ObjectMeta
demo_meta = record {
  name = "demo";
  namespace = "default";
  uid = "4711";
  resource_version = "1";
  generation = 1;
  deletion_timestamp = none;
  finalizers = [];
  annotations = none;
}

abbrev pub annotated : Dict String → ObjectMeta
annotated a = record demo_meta { annotations = some a }

abbrev pub volume : String → ℕ → VolumeStatus
volume name generation = record {
  name = name;
  cache_generation = generation;
  created = 1;
  committable = true;
  commit_start_time = none;
}

abbrev pub node : String → List VolumeStatus → NodeStatus
node name volumes = record {
  name = name;
  cache_generation = 0;
  last_used = 1;
  last_image_id = "";
  volumes = volumes;
  last_error = none;
}

abbrev pub demo_cache : ℕ → List NodeStatus → Cache
demo_cache generation nodes = record {
  meta = demo_meta;
  spec = record { read_only = false };
  status = record {
    image = "";
    cache_generation = generation;
    last_image_id = none;
    last_used = none;
    last_written = none;
    last_reset = none;
    used = 0;
    nodes = nodes;
    phase = cache_phase_ready;
    conditions = [];
  };
}

-- Two volumes on two nodes, and none.
abbrev pub busy_cache : Cache
busy_cache = demo_cache 2 (node "n1" (volume "v1" 1 ∷ []) ∷ node "n2" (volume "v2" 2 ∷ []) ∷ [])

abbrev pub new_cache : Cache
new_cache = demo_cache 0 []

-- Two strings that the code tells apart.
pub apart : (s t : String) → (s == t) ≡ false → s ≢ t
apart s t h e = ground (arith, h, e)
