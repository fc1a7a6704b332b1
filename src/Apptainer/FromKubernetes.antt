-- ===== src/Apptainer/FromKubernetes.antt =====
-- natsprovider/apptainer_cmd_builder/from_kubernetes.py: the volumes and the containers of a job from
-- those of a pod, as the Kubernetes client deserializes it. `fresh` is the random name of a new volume,
-- `decode` is base64, and `defaults` are the settings of a volume that is made without any.
pub mod Sources
pub mod PodVolumes
pub mod Translation
pub mod Sharing
pub mod Failures
pub mod Cleaning
use interlink_condorce_plugi.Prelude.{
  ℕ, Text, codes, List, [], ◌∷◌, ◌++◌, map, Option, none, some, Bool, true, false, get_or, Result,
  ok, err, ◌>>=◌, collect, if◌then◌else◌,
}
use interlink_condorce_plugi.Prelude.Dicts.{Dict}
use interlink_condorce_plugi.BuildConfig.{BuildConfig, BaseVolumeConfig, base_volume_config}
use interlink_condorce_plugi.Apptainer.Volumes.{Volume, Kind}

pub record VolumeMount : Type 0 where
  pub name : Text
  pub mount_path : Text
  pub sub_path : Option Text
  pub read_only : Option Bool

pub record PodContainer : Type 0 where
  pub name : Text
  pub command : Option (List Text)
  pub args : Option (List Text)
  pub image : Text
  pub env : Option (List (Text × Option Text))
  pub volume_mounts : Option (List VolumeMount)

-- a reference to a config map or a secret: its name, and the keys with the paths that they are given
pub record Reference : Type 0 where
  pub object_name : Text
  pub items : Option (List (Text × Text))

pub record PodVolume : Type 0 where
  pub name : Text
  pub empty_dir : Bool
  pub config_map : Option Reference
  pub secret : Option Reference

-- a config map or a secret: its texts, and its base64 texts
pub record Definition : Type 0 where
  pub name : Text
  pub texts : Dict Text Text
  pub binaries : Dict Text Text

pub record Pod : Type 0 where
  pub name : Text
  pub uid : Text
  pub labels : Option (Dict Text Text)
  pub annotations : Option (Dict Text Text)
  pub volumes : Option (List PodVolume)
  pub containers : List PodContainer
  pub init_containers : Option (List PodContainer)

-- where a volume is made, on which its random name depends
pub data Place : Type 0 where
  pod_volume cache : Text → Place
  unknown : (container mount_path : Text) → Place

-- a volume with the settings of `base_volume_config`
unfoldable pub make_volume :
    BaseVolumeConfig
    → (uid : Text) → Kind
    → (init_script cleanup_script host_path_override : Option Text) → Volume
make_volume c uid kind init_script cleanup_script host_path_override = record {
  uid = uid;
  scratch_area = c.scratch_area;
  init_script = init_script;
  cleanup_script = cleanup_script;
  fuse_mode = c.fuse_mode;
  fuse_enabled_on_host = c.fuse_enabled_on_host;
  host_path_override = host_path_override;
  additional_directories_in_path = c.additional_directories_in_path;
  cachedir = c.cachedir;
  kind = kind;
}

-- `make_empty_dir` of volumes.py
unfoldable pub make_empty_dir : BaseVolumeConfig → (uid : Text) → Volume
unfolding make_volume codes
make_empty_dir c uid =
    make_volume c uid Kind.base (some (codes "\nrm -rf %(host_path)s\nmkdir -p %(host_path)s\n"))
      (some (codes "\nrm -rf %(host_path)s\n")) none
