-- ===== src/Tests/Provisioners.antt =====
-- Witnesses for the registry of provisioners and the controllers.
use k8storagex.Base.{
  ◌⊎◌, ℕ, ◌≡◌, refl, ◌≢◌, String, Bool, true, false, Option, none, some, List, [], ◌∷◌, Result, ok,
  err, Error, not_found, other, new_error, arith, if◌then◌else◌, ◌==◌, string_eq,
}
use k8storagex.Base.Dict
use k8storagex.Api.Meta.{ObjectMeta}
use k8storagex.Api.Core.{Pod, PersistentVolumeClaim, Container}
use k8storagex.Api.Provisioner.{StorageProvisioner, ProvisionerContainer, provisioner_name}
use k8storagex.Cluster.{Client}
use k8storagex.Library.{Library}
use k8storagex.Template.{end}
use k8storagex.Registry.{validate_provisioner, Registry, get, put, load_provisioners}
use k8storagex.Registry.Laws.{IsHeld, IsSound, get-put, put_failed, load_provisioners-IsSound}
use k8storagex.Controllers.StorageProvisioner.{reconcile as reconcile_provisioner}
use k8storagex.Controllers.StorageProvisioner.Laws.{get-reconcile_deleted, reconcile-IsSound}
use k8storagex.Controllers.Pod.{handle_claims, reconcile as reconcile_pod}
use k8storagex.Controllers.Pod.Laws.{
  Permits, annotation-set_annotation, reconcile-Inv, handle_claims_error,
}
use k8storagex.Utils.Annotations.{annotation}
use k8storagex.Api.Provisioner.{annotation_no_protection, enabled}
use k8storagex.Tests.{apart, demo, demo_meta, annotated}

abbrev container : ProvisionerContainer
container = record { command = some ("provision" ∷ []); env = [] }

abbrev main : Container
main = record {
  name = "main";
  image = "busybox";
  command = "sh" ∷ [];
  args = [];
  env = [];
  volume_mounts = [];
}

abbrev pub provisioner : String → String → StorageProvisioner
provisioner resource name = record {
  meta = record demo_meta { name = resource };
  spec = record {
    name = name;
    deprovision_on_pod_completion = true;
    persistent_volume_template = record {
      capacity = none;
      volume_mode = some "Filesystem";
      storage_class_name = "";
      reclaim_policy = "Delete";
      claim_ref = none;
      host_path = none;
      node_affinity = none;
    };
    pod_template = record {
      containers = main ∷ [];
      volumes = [];
      restart_policy = "";
      node_name = "";
    };
    containers = record { provisioner = container; deprovisioner = container };
    env = [];
    nodes = record { name = "*"; path = "/data/cache" } ∷ [];
  };
  conditions = [];
}

-- It lacks the volume mode.
abbrev invalid : StorageProvisioner
invalid =
    let p = provisioner "bad" "local" in
    record p {
      spec = record (p.spec) {
        persistent_volume_template = record (p.spec.persistent_volume_template) {
          volume_mode = none;
        };
      };
    }

abbrev pub lib : Library
lib = record {
  sort_strings = λ l. l;
  match = λ pattern name. ok (pattern == name);
  clean = λ path. path;
  dir = λ path. "/data";
  base = λ path. path;
  is_abs = λ path. true;
  digest = λ text. "0123456789abcdef";
  parse = λ values text. ok text;
  show = λ n. "0";
  to_unstructured = λ p. ok end;
  from_unstructured = λ u p. (p, none);
  to_json = λ p. ok "{}";
  from_json = λ text. ok (provisioner "a" "local");
  reference_to_json = λ claim. ok "{}";
  reference_from_json = λ text. err (new_error "no reference");
}

get-put_example :
    get (put lib [] (provisioner "a" "local")).0 "local" ≡ some (provisioner "a" "local")
unfolding string_eq provisioner_name put k8storagex.Registry.validate_provisioner
    k8storagex.Utils.PodTemplate.new_provisioner_pod k8storagex.Utils.PodTemplate.find_container
    k8storagex.Utils.Provisioner.substitute_placeholders k8storagex.Template.substitute_map
    k8storagex.Registry.is_taken Dict.lookup
get-put_example = get-put lib [] (provisioner "a" "local") "local" refl

abbrev held_registry : Registry
held_registry = ("local", some (provisioner "a" "local")) ∷ []

put_failed_example :
    ((x : Error) × (validate_provisioner lib (provisioner "b" "local") ≡ some x)
      × ((put lib held_registry (provisioner "b" "local")).0 ≡ held_registry))
    ⊎ ((validate_provisioner lib (provisioner "b" "local") ≡ none)
        × IsHeld lib held_registry (provisioner "b" "local")
        × ((name : String)
            → Dict.lookup name (put lib held_registry (provisioner "b" "local")).0
              ≡ (if "local" == name then some none else Dict.lookup name held_registry)))
unfolding string_eq provisioner_name put get k8storagex.Registry.validate_provisioner
    k8storagex.Utils.PodTemplate.new_provisioner_pod k8storagex.Utils.PodTemplate.find_container
    k8storagex.Utils.Provisioner.substitute_placeholders k8storagex.Template.substitute_map
    k8storagex.Base.wrap Dict.lookup k8storagex.Registry.is_taken
put_failed_example = put_failed lib held_registry (provisioner "b" "local") _ refl

empty-IsSound : IsSound lib []
unfolding get Dict.lookup
empty-IsSound name p h = ground (arith, h)

load_provisioners-IsSound_example :
    IsSound lib (load_provisioners lib [] (provisioner "a" "local" ∷ invalid ∷ []))
load_provisioners-IsSound_example =
    load_provisioners-IsSound lib (provisioner "a" "local" ∷ invalid ∷ []) [] empty-IsSound

-- A cluster that holds one object, or none.
abbrev pub holding : {A : Type 0} → Option A → Client Unit A
holding a = record {
  get = λ _ s.
      (elim a [ none ↦ err (record { reason = not_found; message = "" }) | some x ↦ ok x ], s);
  create = λ x s. (ok x, s);
  update = λ x s. (ok x, s);
  update_status = λ x s. (ok x, s);
  delete = λ _ s. (some (record { reason = not_found; message = "" }), s);
}

get-reconcile_deleted_example :
    get
      (reconcile_provisioner lib
        (holding none)
        9
        demo
        (("local", some (provisioner "a" "local")) ∷ [])
        (tt {0})).1
      "local"
    ≡ get (("local", some (provisioner "a" "local")) ∷ []) "local"
unfolding string_eq
get-reconcile_deleted_example =
    get-reconcile_deleted lib (holding none) 9 demo (("local", some (provisioner "a" "local")) ∷ [])
      tt _ tt "local" refl refl (apart "local" "" refl)

reconcile-IsSound_example :
    IsSound lib (reconcile_provisioner lib (holding (some invalid)) 9 demo [] (tt {0})).1
reconcile-IsSound_example =
    reconcile-IsSound lib (holding (some invalid)) 9 demo [] tt empty-IsSound

abbrev pub writable_pod : Pod
writable_pod = record {
  meta = demo_meta;
  spec = record {
    containers = [];
    volumes =
        record { name = "data"; claim = some (record { claim_name = "demo"; read_only = false }) }
        ∷ [];
    restart_policy = "Never";
    node_name = "";
  };
  phase = "Succeeded";
}

abbrev pub claim : PersistentVolumeClaim
claim = record {
  meta = annotated (
      ("k8storagex.mgoltzsche.github.com/no-pvc-protection", "true")
      ∷ ("volume.beta.kubernetes.io/storage-provisioner", "local")
      ∷ []);
  spec = record {
    access_modes = "ReadWriteOnce" ∷ [];
    volume_name = "";
    storage_class_name = none;
    volume_mode = none;
    requests = none;
  };
}

abbrev provisioners : Registry
provisioners = ("local", some (provisioner "a" "local")) ∷ []

-- Claims of which the world is the annotations that were written last. `IsMarked` holds before a
-- write, and after one that marks the claim.
abbrev recording : Client (Option ObjectMeta) PersistentVolumeClaim
recording = record {
  get = λ _ s. (ok claim, s);
  create = λ x s. (ok x, s);
  update = λ x s. (ok x, some x.meta);
  update_status = λ x s. (ok x, some x.meta);
  delete = λ x s. (none, some x.meta);
}

abbrev IsMarked : Option ObjectMeta → Type 0
IsMarked none = Unit
IsMarked (some meta) = annotation meta annotation_no_protection ≡ enabled

recording-Permits : Permits recording provisioners IsMarked
unfolding string_eq
recording-Permits = record {
  reads = λ name s h. h;
  marks = λ pvc s should h.
      (annotation-set_annotation pvc.meta annotation_no_protection enabled
        annotation_no_protection).0;
  deletes = λ pvc s marked idle h. marked;
}

abbrev reading : Client (Option ObjectMeta) Pod
reading = record {
  get = λ _ s. (ok writable_pod, s);
  create = λ x s. (ok x, s);
  update = λ x s. (ok x, s);
  update_status = λ x s. (ok x, s);
  delete = λ x s. (none, s);
}

reconcile-Inv_example : IsMarked (reconcile_pod reading recording provisioners demo none).1
reconcile-Inv_example =
    reconcile-Inv recording provisioners IsMarked recording-Permits
      (λ pvc stored s e. ground (arith, e)) reading demo none (λ s h. h) tt

handle_claims_error_example :
    ((handle_claims recording provisioners (demo ∷ demo ∷ []) (some (new_error "denied")) none).0
      ≢ none)
    × ((handle_claims recording provisioners (demo ∷ demo ∷ []) (some (new_error "denied")) none).1
        ≡ (handle_claims recording provisioners (demo ∷ demo ∷ []) none none).1)
handle_claims_error_example =
    handle_claims_error recording provisioners (demo ∷ demo ∷ []) (new_error "denied") none
