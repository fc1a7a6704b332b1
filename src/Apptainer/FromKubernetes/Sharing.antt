-- ===== src/Apptainer/FromKubernetes/Sharing.antt =====
-- Directories that the containers of a pod share, in
-- natsprovider/apptainer_cmd_builder/from_kubernetes.py.
use interlink_condorce_plugi.Prelude.{
  ℕ, ◌+◌, ◌≤◌, ◌≡◌, refl, ap, ◌∙◌, inl, inr, Text, List, [], ◌∷◌, Option, none, some, false, get_or,
  leb, Bool-cases, ok, arith, nat_eq, list_eq, list_beq_iff, ◌==◌, if◌then◌else◌,
}
use interlink_condorce_plugi.Prelude.Dicts.{Dict, get, put, get-put}
use interlink_condorce_plugi.BuildConfig.{BuildConfig, BaseVolumeConfig, base_volume_config}
use interlink_condorce_plugi.Apptainer.Volumes.{Volume}
use interlink_condorce_plugi.Apptainer.Volumes.Mounts.{MountType, mount}
use interlink_condorce_plugi.Apptainer.FromKubernetes.{
  VolumeMount, PodContainer, Place, pod_volume, make_empty_dir,
}
use interlink_condorce_plugi.Apptainer.FromKubernetes.PodVolumes.{
  count_mounts, volumes_counts, empty_dir,
}
use interlink_condorce_plugi.Apptainer.FromKubernetes.Translation.{volume_of, mount_one}

-- the mounts of a volume in a list, and those of all containers
abbrev pub mounts_of : Text → List VolumeMount → ℕ
mounts_of name [] = 0
mounts_of name (m ∷ ms) = (if m.name == name then 1 else 0) + mounts_of name ms

abbrev pub all_mounts_of : Text → List PodContainer → ℕ
all_mounts_of name [] = 0
all_mounts_of name (c ∷ cs) = mounts_of name (get_or c.volume_mounts []) + all_mounts_of name cs

abbrev pub count_in : Dict Text ℕ → Text → ℕ
count_in d name = get_or (get d name) 0

count_in-put :
    (d : Dict Text ℕ) (k name : Text)
    → count_in (put d k (count_in d k + 1)) name ≡ (if k == name then 1 else 0) + count_in d name
count_in-put d k name = elim (Bool-cases (k == name)) [
  | inl same ↦
      let e = (list_beq_iff k name).0 same in
      rw (get-put d k name (count_in d k + 1), same) (rw e (omega arith))
  | inr other ↦ rw (get-put d k name (count_in d k + 1), other) (omega arith)
]

count_mounts-mounts_of :
    (ms : List VolumeMount) (d : Dict Text ℕ) (name : Text)
    → count_in (count_mounts ms d) name ≡ mounts_of name ms + count_in d name
unfolding count_mounts
count_mounts-mounts_of [] d name = omega arith
count_mounts-mounts_of (m ∷ ms) d name = omega (
  arith,
  count_mounts-mounts_of ms (put d m.name (count_in d m.name + 1)) name,
  count_in-put d m.name name,
)

-- The loop over the containers counts, for each volume, the mounts of it.
volumes_counts-all_mounts_of :
    (cs : List PodContainer) (d : Dict Text ℕ) (name : Text)
    → count_in (volumes_counts cs d) name ≡ all_mounts_of name cs + count_in d name
unfolding volumes_counts
volumes_counts-all_mounts_of [] d name = omega arith
volumes_counts-all_mounts_of (c ∷ cs) d name = omega (
  arith,
  volumes_counts-all_mounts_of cs (count_mounts (get_or c.volume_mounts []) d) name,
  count_mounts-mounts_of (get_or c.volume_mounts []) d name,
)

module _ (config : BuildConfig) (defaults : BaseVolumeConfig) (fresh : Place → Text)
    (pod_volumes : Dict Text Volume) (user_cache : Option Text) (cs : List PodContainer) where
  abbrev pub volume_named : Text → Volume
  volume_named name = empty_dir (base_volume_config config) fresh (volumes_counts cs []) name

  shared_volume :
      (name : Text)
      → 2 ≤ all_mounts_of name cs
      → volume_named name ≡ make_empty_dir (base_volume_config config) (fresh (pod_volume name))
  unfolding empty_dir
  shared_volume name twice =
      let counted = volumes_counts-all_mounts_of cs [] name in
      let nothing : count_in [] name ≡ 0 = unfold get in refl in
      let many : leb (count_in (volumes_counts cs []) name) 1 ≡ false = ground arith in rw many refl

  -- Where a pod has mounted an empty directory more than once, and its volume has not been replaced,
  -- each mount of it, in whichever container, binds one and the same directory of the host, at the
  -- subpath of the mount, writable unless the mount is read-only.
  pub mount_one-shared :
      (name : Text) (c : PodContainer) (m : VolumeMount)
      → 2 ≤ all_mounts_of name cs
      → get pod_volumes name ≡ some (volume_named name)
      → m.name ≡ name
      → mount_one config defaults fresh pod_volumes user_cache c m
        ≡ ok (
            record {
              volume = make_empty_dir (base_volume_config config) (fresh (pod_volume name));
              container_path = m.mount_path;
              read_only = get_or m.read_only false;
              host_path_override = none;
              mount_type = MountType.bind;
              sub_path = m.sub_path;
            }
            ∷ [])
  unfolding mount_one
  mount_one-shared name c m twice found e =
      let at_mount : get pod_volumes m.name
          ≡ some (make_empty_dir (base_volume_config config) (fresh (pod_volume name))) =
        ap (get pod_volumes) e ∙ found ∙ ap some (shared_volume name twice) in
      let v : volume_of config defaults fresh pod_volumes user_cache c m
          ≡ make_empty_dir (base_volume_config config) (fresh (pod_volume name)) =
        unfold volume_of in rw at_mount refl in
      rw v (unfold mount make_empty_dir in refl)
