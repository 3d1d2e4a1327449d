-- ===== src/Tests/Resets.antt =====
-- Witnesses for the controller of caches.
use k8storagex.Base.{ok, Error, true, Option, ◌≡◌, refl, false, none, some, [], ◌∷◌, string_eq}
use k8storagex.Api.Cache.{Cache, cache_finalizer}
use k8storagex.Cluster.{Client}
use k8storagex.Api.Core.{Pod}
use k8storagex.Utils.Strings.{has_string}
use k8storagex.Controllers.Cache.{write_status, finalize_cache}
use k8storagex.Controllers.Cache.Laws.{AnswersStatus, finalize_cache_failed}
use k8storagex.Tests.{demo_meta, new_cache}
use k8storagex.Tests.Provisioners.{holding, writable_pod}

abbrev deleted_cache : Cache
deleted_cache = record new_cache {
  meta = record demo_meta { finalizers = cache_finalizer ∷ []; deletion_timestamp = some 7 };
}

abbrev failed_pod : Pod
failed_pod = record writable_pod { phase = "Failed" }

-- A server of the Cache: a write of the status leaves the finalizers as they are.
abbrev caches : Client Unit Cache
caches = record (holding (some deleted_cache)) {
  update_status =
      λ c s. (ok (record c { meta = record (c.meta) { finalizers = cache_finalizer ∷ [] } }), s);
}

caches-AnswersStatus : AnswersStatus caches (cache_finalizer ∷ [])
caches-AnswersStatus c s =
    (record c { meta = record (c.meta) { finalizers = cache_finalizer ∷ [] } }, refl, refl, λ h. h)

abbrev ended : Option Error × (Cache × Unit {0})
ended = finalize_cache "manager" caches (holding (some failed_pod)) 9 (deleted_cache, tt {0})

finalize_cache_failed_example :
    (ended.0 ≡ none)
    × ((d : Cache) × (t : Unit {0}) × (ended ≡ write_status caches (d, t))
        × (has_string d.meta.finalizers cache_finalizer ≡ false)
        × (d.status.last_reset ≡ none))
    × (has_string ended.1.0.meta.finalizers cache_finalizer ≡ true)
unfolding has_string string_eq
finalize_cache_failed_example =
    finalize_cache_failed "manager" caches (holding (some failed_pod)) 9 (cache_finalizer ∷ [])
      caches-AnswersStatus deleted_cache tt failed_pod refl refl refl refl refl
