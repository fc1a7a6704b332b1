-- ===== src/Apptainer/FromKubernetes/PodVolumes.antt =====
-- `_make_pod_volume_struct` of natsprovider/apptainer_cmd_builder/from_kubernetes.py: the volumes of a
-- pod by their names. `directories` is the order in which a set of names is traversed.
use interlink_condorce_plugi.Prelude.{
  ℕ, zero, suc, ◌+◌, Text, codes, List, [], ◌∷◌, ◌++◌, none, some, Bool, true, false, ◌&&◌, ◌||◌,
  not, nat_beq, leb, get_or, length, drop, Result, ok, err, ◌>>=◌, type_error, nat_eq, list_eq,
  if◌then◌else◌,
}
use interlink_condorce_plugi.Prelude.Dicts.{Dict, get, put, merge}
use interlink_condorce_plugi.BuildConfig.{BaseVolumeConfig}
use interlink_condorce_plugi.Apptainer.Volumes.{Volume, Kind, is_alphanumeric}
use interlink_condorce_plugi.Apptainer.FromKubernetes.{
  VolumeMount, PodContainer, PodVolume, Definition, Pod, Place, pod_volume, make_volume,
  make_empty_dir,
}
use interlink_condorce_plugi.Apptainer.FromKubernetes.Sources.{sources, create_static_volume_dict}

-- how often the volumes are mounted
unfoldable pub count_mounts : List VolumeMount → Dict Text ℕ → Dict Text ℕ
unfolding get put
count_mounts [] d = d
count_mounts (m ∷ ms) d = count_mounts ms (put d m.name (get_or (get d m.name) 0 + 1))

unfoldable pub volumes_counts : List PodContainer → Dict Text ℕ → Dict Text ℕ
unfolding count_mounts
volumes_counts [] d = d
volumes_counts (c ∷ cs) d = volumes_counts cs (count_mounts (get_or c.volume_mounts []) d)

unfoldable pub empty_dir_names : List PodVolume → List Text
empty_dir_names [] = []
empty_dir_names (v ∷ vs) =
    let rest = empty_dir_names vs in if v.empty_dir then v.name ∷ rest else rest

-- A pattern, of which a dot stands for any character but the end of a line, at the start of a text.
unfoldable pub matches_here : (pattern t : Text) → Bool
matches_here [] t = true
matches_here (p ∷ ps) [] = false
matches_here (p ∷ ps) (c ∷ t) =
    (nat_beq p c || (nat_beq p b'.' && not (nat_beq c b'\n'))) && matches_here ps t

-- `[\w-]+`, on ASCII
unfoldable pub word_prefix : Text → Text
unfolding is_alphanumeric
word_prefix [] = []
word_prefix (c ∷ t) =
    if is_alphanumeric c || (nat_beq c b'_' || nat_beq c b'-') then c ∷ word_prefix t else []

-- `re.findall(pattern + "([\w-]+)", t)`, with fuel for the characters of the text
unfoldable pub findall : (pattern : Text) → ℕ → Text → List Text
unfolding matches_here word_prefix
findall pattern zero t = []
findall pattern (suc n) [] = []
findall pattern (suc n) (c ∷ t) =
    let name = word_prefix (drop (length pattern) (c ∷ t)) in
    let found = name ∷ findall pattern n (drop (length pattern + length name) (c ∷ t)) in
    let further = findall pattern n t in
    if matches_here pattern (c ∷ t) then elim name [ [] ↦ further | _ ∷ _ ↦ found ] else further

module _ (config : BaseVolumeConfig) (fresh : Place → Text) where
  -- a directory that is mounted once, or not at all, is a scratch area
  unfoldable pub empty_dir : Dict Text ℕ → Text → Volume
  unfolding get make_empty_dir make_volume
  empty_dir counts name =
      if leb (get_or (get counts name) 0) 1
      then make_volume config (fresh (pod_volume name)) Kind.scratch none none none
      else make_empty_dir config (fresh (pod_volume name))

  unfoldable pub empty_dirs : Dict Text ℕ → List Text → Dict Text Volume → Dict Text Volume
  unfolding empty_dir put
  empty_dirs counts [] d = d
  empty_dirs counts (n ∷ ns) d = empty_dirs counts ns (put d n (empty_dir counts n))

  unfoldable pub put_all : (Text → Volume) → List Text → Dict Text Volume → Dict Text Volume
  unfolding put
  put_all make [] d = d
  put_all make (n ∷ ns) d = put_all make ns (put d n (make n))

  -- the volumes that annotations ask for
  unfoldable pub annotated :
      (pattern : Text)
      → (value : Text → Text → Volume) → Dict Text Text
      → Dict Text Volume
      → Dict Text Volume
  unfolding findall put_all
  annotated pattern value [] d = d
  annotated pattern value ((k, v) ∷ annotations) d =
      annotated pattern value annotations (put_all (value v) (findall pattern (length k) k) d)

  unfoldable pub fuse_volumes : Dict Text Text → Dict Text Volume
  unfolding annotated make_volume codes
  fuse_volumes annotations =
      annotated (codes "fuse.vk.io/")
        (λ script name.
          make_volume config (fresh (pod_volume name)) (Kind.fuse script) none none none)
        annotations []

  unfoldable pub cvmfs_volumes : Dict Text Text → Dict Text Volume
  unfolding annotated make_volume codes
  cvmfs_volumes annotations =
      annotated (codes "cvmfs.vk.io/")
        (λ script name.
          make_volume config (fresh (pod_volume name)) Kind.base none none (some (codes "/cvmfs")))
        annotations []

  -- A pod without a list of volumes is a TypeError.
  unfoldable pub make_pod_volume_struct :
      (decode : Text → Result (List ℕ))
      → (directories : List Text → List Text) → Pod
      → (config_maps secrets : List Definition) → Result (Dict Text Volume)
  unfolding volumes_counts empty_dir_names empty_dirs sources create_static_volume_dict fuse_volumes
      cvmfs_volumes merge
  make_pod_volume_struct decode directories pod config_maps secrets = elim pod.volumes [
    | none ↦ err type_error
    | some vs ↦
        let counts = volumes_counts (pod.containers ++ get_or pod.init_containers []) [] in
        let annotations = get_or pod.annotations [] in
        create_static_volume_dict fresh decode config (sources (λ v. v.config_map) vs [])
          config_maps []
        >>= λ maps.
            create_static_volume_dict fresh decode config (sources (λ v. v.secret) vs []) secrets []
            >>= λ hidden. ok (
                merge
                  (merge
                    (merge (merge (empty_dirs counts (directories (empty_dir_names vs)) []) maps)
                      hidden)
                    (fuse_volumes annotations))
                  (cvmfs_volumes annotations))
  ]
