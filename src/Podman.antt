-- ===== src/Podman.antt =====
-- natsprovider/podmanprovider/PodmanProvider.py: Podman as the backend of a provider. What the client of
-- Podman and the file system answer is a parameter; `pilot` is the image and `cvmfs` the mount point of
-- configuration.py.
pub mod Missing
use interlink_condorce_plugi.Prelude.{
  ℕ, Text, codes, List, [], ◌∷◌, ◌++◌, Option, none, some, Bool, true, false, ◌||◌, contains,
  Result, Error, ok, err, ◌>>=◌, http, nat_eq, list_eq, list_beq, ◌==◌, if◌then◌else◌,
}
use interlink_condorce_plugi.BuildConfig.{BuildConfig}
use interlink_condorce_plugi.Utils.Responses.{
  JobStatus, Phase, pending, running, succeeded, failed, unknown,
}
use interlink_condorce_plugi.Utils.PodResources.{Container, compute_pod_resource}

-- BindVolume, less the fields that never change
pub record BindVolume : Type 0 where
  pub target : Text
  pub source : Text
  pub read_only : Bool

-- `containers.get(name)`: the status of the container, NotFound, or another exception
pub data Pilot : Type 0 where
  has_status : Text → Pilot
  not_found : Pilot
  raises : Error → Pilot

-- the arguments of `containers.run` that depend on the job
pub record RunArguments : Type 0 where
  pub name : Text
  pub image : Text
  pub command : List Text
  pub mem_limit : ℕ
  pub cpu_shares : ℕ
  pub mounts : List BindVolume

-- `customize_build_config`
unfoldable pub customize_build_config : BuildConfig → BuildConfig
unfolding codes
customize_build_config c = record c {
  volumes = record c.volumes {
    scratch_area = codes "/scratch";
    apptainer_cachedir = codes "/cache";
    image_dir = codes "/images";
  };
}

-- `Path(directory) / name`, of a directory without a slash at its end
unfoldable pub slash : (directory name : Text) → Text
slash directory name = directory ++ (b'/' ∷ name)

unfoldable pub mounts_of :
    (cvmfs : Text)
    → (image_dir_exists : Bool) → BuildConfig
    → (sandbox job_name : Text) → List BindVolume
unfolding customize_build_config slash codes
mounts_of cvmfs image_dir_exists c sandbox job_name =
    let t = customize_build_config c in
    record {
      target = t.volumes.apptainer_cachedir;
      source = c.volumes.apptainer_cachedir;
      read_only = false;
    }
    ∷ record {
      target = t.volumes.scratch_area;
      source = slash c.volumes.scratch_area job_name;
      read_only = false;
    }
    ∷ record { target = codes "/sandbox"; source = sandbox; read_only = false }
    ∷ ((elim cvmfs [
      | [] ↦ []
      | x ∷ path ↦ record { target = codes "/cvmfs"; source = x ∷ path; read_only = true } ∷ []
    ])
        ++ (if image_dir_exists
            then record {
              target = t.volumes.image_dir;
              source = c.volumes.image_dir;
              read_only = true;
            }
              ∷ []
            else []))

module _ (parse_quantity : Text → Result ℕ) (pilot cvmfs local_sandbox : Text) where
  unfoldable pub run_arguments :
      (image_dir_exists : Bool)
      → BuildConfig
      → (job_name job_sh : Text) → List Container
      → Result RunArguments
  unfolding compute_pod_resource mounts_of slash codes
  run_arguments image_dir_exists c job_name job_sh containers = do
    memory ← compute_pod_resource parse_quantity containers (codes "memory") (codes "1")
    millicpu ← compute_pod_resource parse_quantity containers (codes "millicpu") (codes "1")
    ok (record {
      name = job_name;
      image = pilot;
      command = codes "/bin/bash" ∷ codes "-c" ∷ job_sh ∷ [];
      mem_limit = memory;
      cpu_shares = millicpu;
      mounts = mounts_of cvmfs image_dir_exists c (slash local_sandbox job_name) job_name;
    })

  -- `create_pod`, once the directories are there: any exception of the submission becomes a 502 with its
  -- text, `print e`.
  unfoldable pub create_pod :
      (print : Error → Text) (run : RunArguments → Result Text) (image_dir_exists : Bool)
      → Pilot
      → BuildConfig
      → (job_name job_sh : Text) → List Container
      → Result Text
  unfolding run_arguments
  create_pod print run image_dir_exists (has_status s) c job_name job_sh containers = ok job_name
  create_pod print run image_dir_exists (raises e) c job_name job_sh containers = err e
  create_pod print run image_dir_exists not_found c job_name job_sh containers =
      elim (do
        arguments ← run_arguments image_dir_exists c job_name job_sh containers
        run arguments) [ err e ↦ err (http 502 (print e)) | ok id ↦ ok job_name ]

abbrev pub with_phase : Phase → Text → JobStatus
with_phase phase logs = record { phase = phase; logs_tarball = logs; reason = none }

-- The end of the method. A container in another status, as "created", gives None.
unfoldable pub ended : (status logs : Text) → Option JobStatus
unfolding list_beq codes
ended status logs =
    if status == codes "exited" || status == codes "stopped"
    then some (with_phase succeeded logs)
    else none

-- `logs` is the content of the file, none if there is none
unfoldable pub status_of : (status : Text) → (logs : Option Text) → Option JobStatus
unfolding ended list_beq codes
status_of status logs =
    if status == codes "unknown"
    then some (with_phase pending [])
    else if status == codes "running"
    then some (with_phase running [])
    else (elim logs [ none ↦ some (with_phase failed []) | some l ↦ ended status l ])

unfoldable pub get_pod_status_and_logs :
    (subscribed_jobs : List Text)
    → Pilot
    → (logs : Option Text) → (job_name : Text) → Option JobStatus
unfolding status_of
get_pod_status_and_logs subscribed_jobs (has_status s) logs job_name = status_of s logs
get_pod_status_and_logs subscribed_jobs (raises e) logs job_name = some (with_phase unknown [])
get_pod_status_and_logs subscribed_jobs not_found logs job_name =
    if contains subscribed_jobs job_name
    then some (with_phase pending [])
    else some (with_phase unknown [])

-- `delete_pod`: the container is removed, if there is one, and then the sandbox. `rmtree` is what becomes
-- of the directory; an OSError is caught and logged, which `none` stands for.
unfoldable pub delete_pod :
    Pilot → (remove : Result (Unit {0})) → (rmtree : Option (Result (Unit {0}))) → Result (Unit {0})
delete_pod (raises e) remove rmtree = err e
delete_pod not_found remove none = ok tt
delete_pod not_found remove (some r) = r
delete_pod (has_status s) remove none = remove
delete_pod (has_status s) remove (some r) = do removed ← remove; r
