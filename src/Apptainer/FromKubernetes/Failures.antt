-- ===== src/Apptainer/FromKubernetes/Failures.antt =====
-- Pods that natsprovider/apptainer_cmd_builder/from_kubernetes.py does not translate.
use interlink_condorce_plugi.Prelude.{
  ℕ, ◌≡◌, ◌≢◌, refl, Text, List, [], ◌∷◌, ◌++◌, Option, none, some, Bool, true, false, collect,
  Result, Error, ok, err, ◌>>=◌, >>=-eq-ok, type_error, not_implemented, nat_eq, list_eq,
}
use interlink_condorce_plugi.Prelude.Dicts.{Dict, get, put}
use interlink_condorce_plugi.BuildConfig.{BuildConfig, BaseVolumeConfig}
use interlink_condorce_plugi.Apptainer.Volumes.{Volume, Kind}
use interlink_condorce_plugi.Apptainer.Volumes.Mounts.{VolumeBind, mount}
use interlink_condorce_plugi.Apptainer.Containers.{ContainerSpec}
use interlink_condorce_plugi.Apptainer.FromKubernetes.{
  VolumeMount, PodContainer, Reference, Definition, Pod, Place,
}
use interlink_condorce_plugi.Apptainer.FromKubernetes.Sources.{
  static_volume, create_static_volume_dict, files, resolve_key2path,
}
use interlink_condorce_plugi.Apptainer.FromKubernetes.PodVolumes.{make_pod_volume_struct}
use interlink_condorce_plugi.Apptainer.FromKubernetes.Translation.{
  volume_of, mount_one, mount_all, volumes_for_container, container_spec, check_kind,
  from_kubernetes,
}

-- a list of which one step fails is not collected
collect-fails {ℓ κ} :
    {A : Type ℓ} {B : Type κ} (f : A → Result B) (xs : List A) (a : A) (ys : List A) {e : Error}
    → f a ≡ err e
    → (bs : List B) → collect f (xs ++ a ∷ ys) ≢ ok bs
unfolding collect
collect-fails f [] a ys h bs k = cc (rw h at k)
collect-fails f (x ∷ xs) a ys h bs k =
    let (b, hb, k') = >>=-eq-ok (f x) _ k in
    let (cs, hcs, _) = >>=-eq-ok (collect f (xs ++ a ∷ ys)) _ k' in collect-fails f xs a ys h cs hcs

module _ (config : BuildConfig) (defaults : BaseVolumeConfig) (fresh : Place → Text)
    (pod_volumes : Dict Text Volume) (user_cache : Option Text) where
  mount_one-read_only :
      (c : PodContainer) (m : VolumeMount) (v : Volume) (script : Text)
      → get pod_volumes m.name ≡ some v
      → v.kind ≡ Kind.fuse script
      → m.read_only ≡ some true
      → mount_one config defaults fresh pod_volumes user_cache c m ≡ err not_implemented
  unfolding mount_one volume_of mount
  mount_one-read_only c m v script found kind ro = rw (found, kind, ro) refl

  binds_collected :
      (c : PodContainer) (ms : List VolumeMount) (bs : List VolumeBind)
      → c.volume_mounts ≡ some ms
      → volumes_for_container config defaults fresh pod_volumes user_cache false c ≡ ok bs
      → (bss : List (List VolumeBind)) × (collect
            (mount_one config defaults fresh pod_volumes user_cache c)
            ms
          ≡ ok bss)
  unfolding volumes_for_container mount_all mount_one collect
  binds_collected c ms bs mounts h =
      let opened = rw (mounts, volumes_for_container) at h in
      let (bss, hbss, _) =
        >>=-eq-ok (collect (mount_one config defaults fresh pod_volumes user_cache c) ms) _
          opened in
      (bss, hbss)

  -- A container that mounts a fuse volume read-only, among any other mounts, is never translated with
  -- its real volumes.
  pub container_spec-read_only :
      (prefix : Text) (c : PodContainer) (before after : List VolumeMount) (m : VolumeMount)
      (v : Volume) (script : Text)
      → c.volume_mounts ≡ some (before ++ m ∷ after)
      → get pod_volumes m.name ≡ some v
      → v.kind ≡ Kind.fuse script
      → m.read_only ≡ some true
      → (s : ContainerSpec)
      → container_spec config defaults fresh pod_volumes user_cache false prefix c ≢ ok s
  unfolding container_spec
  container_spec-read_only prefix c before after m v script mounts found kind ro s h =
      let (bs, hbs, _) =
        >>=-eq-ok (volumes_for_container config defaults fresh pod_volumes user_cache false c) _
          h in
      let (bss, hbss) = binds_collected c (before ++ m ∷ after) bs mounts hbs in
      collect-fails (mount_one config defaults fresh pod_volumes user_cache c) before m after
        (mount_one-read_only c m v script found kind ro) bss hbss

-- A pod that has no list of volumes is not translated: a TypeError is raised, if the check of its kind
-- passes.
pub from_kubernetes-no_volumes :
    (defaults : BaseVolumeConfig) (fresh : Place → Text) (decode : Text → Result (List ℕ))
    (directories : List Text → List Text) (network resolv_conf : Text) (config : BuildConfig)
    (kind version : Option Text) (pod : Pod) (config_maps secrets : List Definition)
    (use_fake_volumes setup_network : Bool)
    → check_kind kind version ≡ ok tt
    → pod.volumes ≡ none
    → from_kubernetes defaults fresh decode directories network resolv_conf config kind version pod
        config_maps secrets use_fake_volumes setup_network
      ≡ err type_error
unfolding from_kubernetes make_pod_volume_struct
from_kubernetes-no_volumes defaults fresh decode directories network resolv_conf config kind version
      pod config_maps secrets use_fake_volumes setup_network passes absent =
    rw (passes, absent) refl

module _ (fresh : Place → Text) (decode : Text → Result (List ℕ)) (config : BaseVolumeConfig) where
  static_volume-no_items :
      (name object k t : Text) (rest : Dict Text Text) (d : Definition)
      → d.texts ≡ (k, t) ∷ rest
      → static_volume fresh decode config name (record { object_name = object; items = none }) d
        ≡ err type_error
  unfolding static_volume files resolve_key2path
  static_volume-no_items name object k t rest d e = rw e refl

  -- the definition of which the volume lists no items
  abbrev pub HasNoItems : Dict Text (Text × Reference) → Definition → Type 0
  HasNoItems refs d =
      (name object k t : Text) × (rest : Dict Text Text) × (get refs d.name
        ≡ some (name, record { object_name = object; items = none }))
      × (d.texts ≡ (k, t) ∷ rest)

  -- A config map with a text, or a secret with one, of which the volume lists no items, is an error for
  -- the whole pod, wherever it stands among the definitions.
  create_static_volume_dict-no_items :
      (refs : Dict Text (Text × Reference)) (before after : List Definition) (d : Definition)
      (volumes vs : Dict Text Volume)
      → HasNoItems refs d
      → create_static_volume_dict fresh decode config refs (before ++ d ∷ after) volumes ≢ ok vs
  unfolding create_static_volume_dict
  create_static_volume_dict-no_items refs [] after d volumes vs
        (name, object, k, t, rest, found, texts) h =
      let failed = static_volume-no_items name object k t rest d texts in
      cc (rw failed at (rw (found, create_static_volume_dict) at h))
  create_static_volume_dict-no_items refs (b ∷ before) after d volumes vs bad h =
      step (get refs b.name) (unfold create_static_volume_dict in h)
        (λ ws. create_static_volume_dict-no_items refs before after d ws vs bad)
    where
      step :
          (o : Option (Text × Reference))
          → (elim o [
            | none ↦
                create_static_volume_dict fresh decode config refs (before ++ d ∷ after) volumes
            | some (name, r) ↦ static_volume fresh decode config name r b >>= λ v.
                create_static_volume_dict fresh decode config refs
                  (before ++ d ∷ after)
                  (put volumes name v)
          ])
            ≡ ok vs
          → ((ws : Dict Text Volume)
              → create_static_volume_dict fresh decode config refs (before ++ d ∷ after) ws ≢ ok vs)
          → ⊥
      step none g ih = ih volumes g
      step (some (name, r)) g ih =
          let (v, hv, g') = >>=-eq-ok (static_volume fresh decode config name r b) _ g in
          ih (put volumes name v) g'
