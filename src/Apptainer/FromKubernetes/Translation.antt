-- ===== src/Apptainer/FromKubernetes/Translation.antt =====
-- `_make_container_list` and `from_kubernetes` of natsprovider/apptainer_cmd_builder/from_kubernetes.py.
-- `defaults` are the settings of a volume that is made without any, and the fields of ContainerSpec that
-- a pod does not set have the defaults of the class.
use interlink_condorce_plugi.Prelude.{
  ℕ, Text, codes, List, [], ◌∷◌, ◌++◌, Option, none, some, Bool, true, false, ◌&&◌, not, get_or,
  collect, Result, ok, err, ◌>>=◌, value_error, nat_eq, list_eq, ◌==◌, if◌then◌else◌,
}
use interlink_condorce_plugi.Prelude.Dicts.{Dict, get, put}
use interlink_condorce_plugi.Prelude.Paths.{join_path}
use interlink_condorce_plugi.BuildConfig.{
  BuildConfig, BaseVolumeConfig, base_volume_config, container_spec_config,
}
use interlink_condorce_plugi.Apptainer.Volumes.{Volume, Kind}
use interlink_condorce_plugi.Apptainer.Volumes.Mounts.{VolumeBind, mount}
use interlink_condorce_plugi.Apptainer.Containers.{ContainerSpec}
use interlink_condorce_plugi.Apptainer.Network.{make_network_config}
use interlink_condorce_plugi.Apptainer.Builder.{Job}
use interlink_condorce_plugi.Apptainer.FromKubernetes.{
  VolumeMount, PodContainer, Definition, Pod, Place, cache, unknown, make_volume, make_empty_dir,
}
use interlink_condorce_plugi.Apptainer.FromKubernetes.PodVolumes.{make_pod_volume_struct}

-- `c.command[0]`, if there is one
unfoldable pub entrypoint_of : Option (List Text) → Option Text
entrypoint_of none = none
entrypoint_of (some []) = none
entrypoint_of (some (c ∷ cs)) = some c

unfoldable pub rest_of : Option (List Text) → List Text
rest_of none = []
rest_of (some []) = []
rest_of (some (c ∷ cs)) = cs

-- `{env.name: env.value for env in env if env.value is not None}`
unfoldable pub environment_of : List (Text × Option Text) → Dict Text Text → Dict Text Text
unfolding put
environment_of [] d = d
environment_of ((k, none) ∷ env) d = environment_of env d
environment_of ((k, some v) ∷ env) d = environment_of env (put d k v)

unfoldable pub all_binds : List (List VolumeBind) → List VolumeBind
all_binds [] = []
all_binds (bs ∷ bss) = bs ++ all_binds bss

module _ (config : BuildConfig) (defaults : BaseVolumeConfig) (fresh : Place → Text)
    (pod_volumes : Dict Text Volume) (user_cache : Option Text) where
  -- A mount of a volume that the pod's volumes do not have gets a scratch area.
  unfoldable pub volume_of : PodContainer → VolumeMount → Volume
  unfolding get make_volume
  volume_of c m =
      get_or (get pod_volumes m.name)
        (make_volume defaults (fresh (unknown c.name m.mount_path)) Kind.scratch none none none)

  unfoldable pub mount_one : PodContainer → VolumeMount → Result (List VolumeBind)
  unfolding volume_of mount
  mount_one c m = mount (volume_of c m) m.mount_path m.sub_path (get_or m.read_only false)

  unfoldable pub cache_volume : PodContainer → Volume
  unfolding make_empty_dir make_volume codes base_volume_config
  cache_volume c = elim user_cache [
    | none ↦ make_empty_dir (base_volume_config config) (fresh (cache c.name))
    | some path ↦
        make_volume (base_volume_config config) (fresh (cache c.name)) Kind.base
          (some (codes "mkdir %(host_path)s")) none (some path)
  ]

  -- the scratch area that stands for any volume where volumes are replaced
  unfoldable pub mount_fake : PodContainer → VolumeMount → Result (List VolumeBind)
  unfolding make_volume mount
  mount_fake c m =
      mount (make_volume defaults (fresh (unknown c.name m.mount_path)) Kind.scratch none none none)
        m.mount_path none false

  unfoldable pub mount_all : Bool → PodContainer → List VolumeMount → Result (List VolumeBind)
  unfolding all_binds codes
  mount_all true c ms = do bss ← collect (mount_fake c) ms; ok (all_binds bss)
  mount_all false c ms = do
    bss ← collect (mount_one c) ms
    bs ← mount (cache_volume c) (codes "/cache") none false
    ok (all_binds bss ++ bs)

  -- `_volumes_for_container`
  unfoldable pub volumes_for_container :
      (use_fake_volumes : Bool) → PodContainer → Result (List VolumeBind)
  volumes_for_container use_fake_volumes c = elim c.volume_mounts [
    | none ↦ ok []
    | some ms ↦ mount_all use_fake_volumes c ms
  ]

  unfoldable pub container_spec :
      (use_fake_volumes : Bool) → (prefix : Text) → PodContainer → Result ContainerSpec
  unfolding volumes_for_container entrypoint_of rest_of environment_of container_spec_config codes
  container_spec use_fake_volumes prefix c = do
    binds ← volumes_for_container use_fake_volumes c
    ok (record {
      uid = prefix ++ c.name;
      entrypoint = entrypoint_of c.command;
      args = rest_of c.command ++ get_or c.args [];
      image = c.image;
      default_format = codes "docker";
      environment = environment_of (get_or c.env []) [];
      volume_binds = binds;
      config = container_spec_config config;
      writable_tmpfs = true;
      no_umask = true;
      no_eval = true;
      memory = none;
      memory_reservation = none;
      working_dir = none;
    })

  unfoldable pub make_container_list :
      (use_fake_volumes is_init_container : Bool)
      → Option (List PodContainer)
      → Result (List ContainerSpec)
  unfolding container_spec collect codes
  make_container_list use_fake_volumes is_init_container none = ok []
  make_container_list use_fake_volumes is_init_container (some cs) =
      collect
        (container_spec use_fake_volumes
          (if is_init_container then codes "init-" else codes "run-"))
        cs

-- The check of the kind: a ValueError only if both the kind and the version are other ones.
unfoldable pub check_kind : Option Text → Option Text → Result (Unit {0})
unfolding codes
check_kind (some kind) (some version) =
    if not (kind == codes "Pod") && not (version == codes "v1") then err value_error else ok tt
check_kind _ _ = ok tt

-- the directory of the user's label
unfoldable pub user_cache_of : BuildConfig → Pod → Option Text
unfolding join_path get codes
user_cache_of config pod = elim (get (get_or pod.labels []) (codes "user")) [
  | none ↦ none
  | some user ↦ some (join_path config.volumes.apptainer_cachedir user)
]

-- `network` is the text of network.sh, and `resolv_conf` that of /etc/resolv.conf.
unfoldable pub from_kubernetes :
    (defaults : BaseVolumeConfig) (fresh : Place → Text) (decode : Text → Result (List ℕ))
    (directories : List Text → List Text) (network resolv_conf : Text)
    → BuildConfig
    → (kind version : Option Text) → Pod
    → (config_maps secrets : List Definition) → (use_fake_volumes setup_network : Bool) → Result Job
from_kubernetes defaults fresh decode directories network resolv_conf config kind version pod
      config_maps secrets use_fake_volumes setup_network =
    do
      checked ← check_kind kind version
      volumes ←
          make_pod_volume_struct (base_volume_config config) fresh decode directories pod
            config_maps secrets
      let user_cache = user_cache_of config pod
      init_containers ←
          make_container_list config defaults fresh volumes user_cache use_fake_volumes true
            pod.init_containers
      containers ←
          make_container_list config defaults fresh volumes user_cache use_fake_volumes false
            (some pod.containers)
      network_config ←
          make_network_config network resolv_conf setup_network config.network pod.annotations
      ok (record {
        uid = pod.name;
        containers = containers;
        init_containers = init_containers;
        additional_volumes = [];
        additional_directories_in_path = config.volumes.additional_directories_in_path;
        scratch_area = join_path config.volumes.scratch_area (codes ".interlink." ++ pod.uid);
        description = [];
        cachedir = config.volumes.apptainer_cachedir;
        fuse_sleep_seconds = 5;
        network_config = network_config;
      })
