-- ===== src/Utils/PodTemplate/Volumes.antt =====
-- internal/utils/podtemplate.go: volumes and mounts that are added to a pod's template.
use k8storagex.Base.{
  ◌≡◌, arith, inl, inr, Bool-cases, String, ◌||◌, Option, none, some, List, [], ◌∷◌, ◌++◌, ◌==◌,
  string_eq, if◌then◌else◌,
}
use k8storagex.Api.Meta.{NamespacedName}
use k8storagex.Api.Core.{EnvVar, Container, Pod, PodSpec, PodVolume, ClaimSource, VolumeMount}
use k8storagex.Utils.PodTemplate.{
  find_container, write_container, unique_env, main_container, pod_of,
}

-- Of the sources of a volume the model has claims.
pub record Volume : Type 0 where
  pub name : String
  pub mount_path : String
  pub source : Option ClaimSource

pub record ContainerParams : Type 0 where
  pub command : List String
  pub env : List EnvVar
  pub volume : Volume

-- What `addVolumeMount` sets on a mount of the name.
placed : Volume → VolumeMount → VolumeMount
placed v m =
    if m.mount_path == "" || m.mount_path == "/replace-with-host-path"
    then record m { mount_path = v.mount_path }
    else m

-- The mounts, and the one that the pointer leads to.
add_volume_mount : List VolumeMount → Volume → List VolumeMount × VolumeMount
unfolding placed
add_volume_mount [] v =
    let m : VolumeMount = record { name = v.name; mount_path = v.mount_path } in (m ∷ [], m)
add_volume_mount (m ∷ mounts) v =
    let (mounts', found) = add_volume_mount mounts v in
    if m.name == v.name then (placed v m ∷ mounts, placed v m) else (m ∷ mounts', found)

add_volume : List PodVolume → Volume → List PodVolume
add_volume [] v = record { name = v.name; claim = v.source } ∷ []
add_volume (w ∷ volumes) v =
    let volumes' = add_volume volumes v in if w.name == v.name then w ∷ volumes else w ∷ volumes'

-- `newPodFromTemplate`: the pod and the template, whose containers the pod shares, so that the writes to
-- the main container change them as well. Without a main container the code panics, which is `none`. The
-- env that is set last replaces the one that was made before.
module _ (sort_strings : List String → List String) where
  filled : ContainerParams → Container → Container
  unfolding add_volume_mount
  filled params c =
      let (mounts, m) = add_volume_mount c.volume_mounts params.volume in
      let made : Container = record c {
        command = params.command;
        env = unique_env sort_strings (c.env ++ params.env);
        args = [];
      } in
      record made {
        volume_mounts = mounts;
        env = record { name = "VOLUME_PATH"; value = m.mount_path } ∷ [];
      }

  new_pod_from_template : NamespacedName → PodSpec → ContainerParams → Option (Pod × PodSpec)
  unfolding filled add_volume
  new_pod_from_template name template params =
      elim (find_container template.containers (main_container sort_strings)) [
        | none ↦ none
        | some _ ↦
            let template' : PodSpec = record template {
              containers =
                  write_container template.containers (main_container sort_strings) (filled params);
            } in
            let pod =
              pod_of sort_strings name
                (record template' { volumes = add_volume template.volumes params.volume }) in
            some (record pod { meta = record (pod.meta) { annotations = none } }, template')
      ]

mount_at : List VolumeMount → String → Option VolumeMount
mount_at [] name = none
mount_at (m ∷ mounts) name =
    let rest = mount_at mounts name in if m.name == name then some m else rest

-- After `addVolumeMount` the first mount of the volume's name is the one that it returns.
mount_at-add_volume_mount :
    (mounts : List VolumeMount) (v : Volume)
    → mount_at (add_volume_mount mounts v).0 v.name ≡ some (add_volume_mount mounts v).1
unfolding mount_at add_volume_mount placed
mount_at-add_volume_mount [] v = ground arith
mount_at-add_volume_mount (m ∷ mounts) v = elim (Bool-cases (m.name == v.name)) [
  | inl b ↦ elim (Bool-cases (m.mount_path == "" || m.mount_path == "/replace-with-host-path")) [
    | inl c ↦ ground (arith, b, c)
    | inr c ↦ ground (arith, b, c)
  ]
  | inr b ↦ ground (arith, b, mount_at-add_volume_mount mounts v)
]

-- A volume that was added already is not added again.
add_volume-add_volume :
    (volumes : List PodVolume) (v : Volume)
    → add_volume (add_volume volumes v) v ≡ add_volume volumes v
unfolding add_volume
add_volume-add_volume [] v = ground arith
add_volume-add_volume (w ∷ volumes) v = elim (Bool-cases (w.name == v.name)) [
  | inl b ↦ ground (arith, b)
  | inr b ↦ ground (arith, b, add_volume-add_volume volumes v)
]
