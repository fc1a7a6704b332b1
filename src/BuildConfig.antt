-- ===== src/BuildConfig.antt =====
-- The options of natsprovider/apptainer_cmd_builder/BuildConfig.py as records, one for each section
-- of the configuration file, and the three groups of keyword arguments that they are passed on in.
-- Default values that the environment provides, and the reading of the file, are not modelled.
pub mod Slurm
use interlink_condorce_plugi.Prelude.{ℕ, ◌≡◌, Text, List, Option, Bool, true, false, arith, none}
use interlink_condorce_plugi.Utils.Resources.{Resources}
use Slurm.{SlurmOptions}

pub record Volumes : Type 0 where
  pub scratch_area : Text
  pub apptainer_cachedir : Text
  pub image_dir : Text
  pub cvmfs_unpacked_path : Option Text
  pub additional_directories_in_path : List Text
  pub fuse_sleep_seconds : ℕ

pub record NodeOptions : Type 0 where
  pub labels : List Text
  pub taints : List Text

pub data FuseMode : Type 0 where
  container host host_privileged : FuseMode

pub data TmpDirMode : Type 0 where
  bind scratch no_tmp : TmpDirMode

pub record ApptainerOptions : Type 0 where
  pub executable : Text
  pub fakeroot : Bool
  pub userns : Bool
  pub uts : Bool
  pub sharens : Bool
  pub containall : Bool
  pub fuse_mode : FuseMode
  pub no_init : Bool
  pub no_home : Bool
  pub no_privs : Bool
  pub nvidia_support : Bool
  pub cleanenv : Bool
  pub unsquash : Bool
  pub tmp_dir_mode : TmpDirMode

-- The source tests for "container-privileged" too, which is no value of the field.
unfoldable pub fuse_enabled_on_host : ApptainerOptions → Bool
fuse_enabled_on_host o = elim o.fuse_mode [ host_privileged ↦ true | _ ↦ false ]

pub record SingularityHubProxy : Type 0 where
  pub server : Text
  pub master_token : Text
  pub cache_validity_seconds : ℕ

pub record NetworkOptions : Type 0 where
  pub allowed : Bool
  pub wstunnel_binary : Text
  pub slirp4netns_binary : Text
  pub dynamic_fwd_port : ℕ
  pub tmp_resolv_conf : Text
  pub tap_cidr : Text
  pub tap_mtu : ℕ
  pub tun_ip : Text
  pub tun2socks_binary : Text
  pub proxy_cmd : Text
  pub tunnel_finalization : Text

pub record BuildConfig : Type 0 where
  pub volumes : Volumes
  pub apptainer : ApptainerOptions
  pub shub_proxy : SingularityHubProxy
  pub slurm : SlurmOptions
  pub resources : Resources
  pub node : NodeOptions
  pub network : NetworkOptions
  pub input_toml_filename : Option Text

-- `model_dump_json()`, given as the fields that it writes: `input_toml_filename` is excluded
pub record BuildConfigJson : Type 0 where
  pub volumes : Volumes
  pub apptainer : ApptainerOptions
  pub shub_proxy : SingularityHubProxy
  pub slurm : SlurmOptions
  pub resources : Resources
  pub node : NodeOptions
  pub network : NetworkOptions

unfoldable pub model_dump_json : BuildConfig → BuildConfigJson
model_dump_json c = record {
  volumes = c.volumes;
  apptainer = c.apptainer;
  shub_proxy = c.shub_proxy;
  slurm = c.slurm;
  resources = c.resources;
  node = c.node;
  network = c.network;
}

-- `BuildConfig(**json.loads(text))`: a field that is not there has its default, None
unfoldable pub from_json : BuildConfigJson → BuildConfig
from_json j = record {
  volumes = j.volumes;
  apptainer = j.apptainer;
  shub_proxy = j.shub_proxy;
  slurm = j.slurm;
  resources = j.resources;
  node = j.node;
  network = j.network;
  input_toml_filename = none;
}

-- the arguments that a volume takes from the configuration
pub record BaseVolumeConfig : Type 0 where
  pub fuse_mode : FuseMode
  pub fuse_enabled_on_host : Bool
  pub scratch_area : Text
  pub additional_directories_in_path : List Text
  pub cachedir : Text

unfoldable pub base_volume_config : BuildConfig → BaseVolumeConfig
unfolding fuse_enabled_on_host
base_volume_config c = record {
  fuse_mode = c.apptainer.fuse_mode;
  fuse_enabled_on_host = fuse_enabled_on_host c.apptainer;
  scratch_area = c.volumes.scratch_area;
  additional_directories_in_path = c.volumes.additional_directories_in_path;
  cachedir = c.volumes.apptainer_cachedir;
}

-- the arguments that a container takes from the configuration
pub record ContainerSpecConfig : Type 0 where
  pub executable : Text
  pub scratch_area : Text
  pub cachedir : Text
  pub shub_proxy_server : Text
  pub shub_proxy_master_token : Text
  pub shub_cache_seconds : ℕ
  pub readonly_image_dir : Text
  pub cvmfs_unpacked_path : Option Text
  pub fakeroot : Bool
  pub userns : Bool
  pub sharens : Bool
  pub uts : Bool
  pub containall : Bool
  pub no_init : Bool
  pub no_home : Bool
  pub no_privs : Bool
  pub nvidia_support : Bool
  pub cleanenv : Bool
  pub unsquash : Bool
  pub tmp_dir_mode : TmpDirMode

unfoldable pub container_spec_config : BuildConfig → ContainerSpecConfig
container_spec_config c = record {
  executable = c.apptainer.executable;
  scratch_area = c.volumes.scratch_area;
  cachedir = c.volumes.apptainer_cachedir;
  shub_proxy_server = c.shub_proxy.server;
  shub_proxy_master_token = c.shub_proxy.master_token;
  shub_cache_seconds = c.shub_proxy.cache_validity_seconds;
  readonly_image_dir = c.volumes.image_dir;
  cvmfs_unpacked_path = c.volumes.cvmfs_unpacked_path;
  fakeroot = c.apptainer.fakeroot;
  userns = c.apptainer.userns;
  sharens = c.apptainer.sharens;
  uts = c.apptainer.uts;
  containall = c.apptainer.containall;
  no_init = c.apptainer.no_init;
  no_home = c.apptainer.no_home;
  no_privs = c.apptainer.no_privs;
  nvidia_support = c.apptainer.nvidia_support;
  cleanenv = c.apptainer.cleanenv;
  unsquash = c.apptainer.unsquash;
  tmp_dir_mode = c.apptainer.tmp_dir_mode;
}
