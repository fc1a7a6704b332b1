-- ===== src/Examples.antt =====
-- Concrete pods, gateways and providers, on which the children apply the theorems.
pub mod OfGateway
pub mod OfProvider
pub mod OfLogs
pub mod OfKueue
pub mod OfUtils
pub mod OfSlurm
pub mod OfBuilder
pub mod OfCondor
pub mod OfPodman
use interlink_condorce_plugi.Prelude.{
  ℕ, ◌≡◌, refl, Text, codes, List, [], ◌∷◌, Option, none, some, true, false, Result, ok, err,
  type_error, nat_eq, list_eq, list_beq,
}
use interlink_condorce_plugi.Prelude.Dicts.{Dict}
use interlink_condorce_plugi.Prelude.Numbers.{digits, value}
use interlink_condorce_plugi.Prelude.Int.{negsuc}
use interlink_condorce_plugi.Utils.Responses.{Data}
use interlink_condorce_plugi.Utils.Resources.{Resources}
use interlink_condorce_plugi.Utils.JobId
use interlink_condorce_plugi.BuildConfig.{
  BuildConfig, Volumes, ApptainerOptions, host, scratch, SingularityHubProxy, NodeOptions,
  NetworkOptions,
}
use interlink_condorce_plugi.BuildConfig.Slurm.{SlurmOptions}
use interlink_condorce_plugi.Interlink.{PodRequest, Toleration}
use interlink_condorce_plugi.Apptainer.Logs.{Builder, Container}
use interlink_condorce_plugi.Gateway.{Gateway, Redis, init, jobid, retrieve_pool_from_tolerations}

abbrev pub no_resources : Resources
no_resources = record { cpu = none; memory = none; gpus = none; pods = none }

abbrev pub volumes : Volumes
volumes = record {
  scratch_area = codes "/tmp";
  apptainer_cachedir = codes "/tmp/cache";
  image_dir = codes "/images";
  cvmfs_unpacked_path = none;
  additional_directories_in_path = [];
  fuse_sleep_seconds = 5;
}

abbrev pub apptainer : ApptainerOptions
apptainer = record {
  executable = codes "apptainer";
  fakeroot = false;
  userns = true;
  uts = true;
  sharens = false;
  containall = true;
  fuse_mode = host;
  no_init = false;
  no_home = true;
  no_privs = true;
  nvidia_support = false;
  cleanenv = true;
  unsquash = false;
  tmp_dir_mode = scratch;
}

abbrev pub slurm : SlurmOptions
slurm = record {
  flavors = none;
  bash_executable = codes "/bin/bash";
  sbatch_executable = codes "sbatch";
  squeue_executable = codes "squeue";
  sacct_executable = codes "sacct";
  nodes = 1;
  cpus_per_task = none;
  mem_per_cpu = none;
  partition = none;
  time = none;
  qos = none;
  max_time_seconds = none;
  account = none;
  job_name = none;
  mail_user = none;
  mail_type = none;
  sandbox = codes "/sandbox";
  output = codes "out";
  error = codes "err";
  memory = none;
  cpu = none;
  ntasks = none;
  reservation = none;
  nodelist = none;
  generic_resources = [];
  flags = [];
  header = [];
  footer = [];
}

abbrev pub network : NetworkOptions
network = record {
  allowed = false;
  wstunnel_binary = [];
  slirp4netns_binary = [];
  dynamic_fwd_port = 0;
  tmp_resolv_conf = [];
  tap_cidr = [];
  tap_mtu = 0;
  tun_ip = [];
  tun2socks_binary = [];
  proxy_cmd = [];
  tunnel_finalization = [];
}

abbrev pub build_config : BuildConfig
build_config = record {
  volumes = volumes;
  apptainer = apptainer;
  shub_proxy = record { server = []; master_token = []; cache_validity_seconds = 60 };
  slurm = slurm;
  resources = no_resources;
  node = record { labels = []; taints = [] };
  network = network;
  input_toml_filename = none;
}

-- a pod of the pool `p` with one container, named by its namespace, its name and its uid
abbrev pub pod : PodRequest
pod = record {
  metadata =
      (codes "name", codes "a") ∷ (codes "namespace", codes "b") ∷ (codes "uid", codes "7") ∷ [];
  tolerations = some (record { key = codes "pool.vk.io"; value = codes "p" } ∷ []);
  init_containers = none;
  containers = codes "main" ∷ [];
}

abbrev pub job : Text
job = codes "b-a-7"

pub pod-jobid : jobid pod ≡ ok job
unfolding JobId.get_readable_jobid list_beq codes JobId.make_uid_numeric digits value
pod-jobid = refl

pub pod_pool : retrieve_pool_from_tolerations pod.tolerations ≡ ok (codes "p")
unfolding retrieve_pool_from_tolerations list_beq codes
pod_pool = refl

abbrev pub redis : Redis
redis = record { build_configs = []; pod_pool = []; pod_status = []; container_statuses = [] }

abbrev pub gateway : Gateway
gateway = record {
  nats_subject = codes "interlink";
  redis = some redis;
  build_configs = [];
  transitions = [];
}

abbrev pub print : Data → Text
print d = []

abbrev pub build : PodRequest → BuildConfig → Result Text
build p c = err type_error

-- the member of a tarball that says that the container has ended well
abbrev pub untar : Text → List (Text × Text)
untar t = (codes "main.status", codes "0") ∷ []

abbrev pub builder : PodRequest → Result Builder
builder p = ok (record {
  init_containers = [];
  containers =
      record { uid = codes "main"; scratch_area = codes "/tmp"; log = none; return_code = none }
      ∷ [];
  error_code_for_return_code_not_found = negsuc 403;
})
