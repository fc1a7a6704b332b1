-- ===== src/Slurm/Submission.antt =====
-- `create_pod` of natsprovider/slurmprovider/SlurmProvider.py: what it asks of the file system and of
-- sbatch, as a list of calls in their order, and the job id that it returns. What the calls answer is
-- a parameter. Directories are written without a slash at their end. What starting sbatch raises, sbatch
-- answers as an error, and this leaves the method: its handler of CalledProcessError is never reached,
-- since `asyncio.create_subprocess_exec` does not raise that exception, and is left out.
use interlink_condorce_plugi.Prelude.{
  ℕ, Text, codes, List, [], ◌∷◌, ◌++◌, Option, none, some, ◌&&◌, leb, starts_with, length, drop,
  Result, Error, ok, err, if◌then◌else◌,
}
use interlink_condorce_plugi.Action.{Action, pure, lift, ◌>>=◌, ◌>>◌}
use interlink_condorce_plugi.BuildConfig.{BuildConfig}
use interlink_condorce_plugi.BuildConfig.Slurm.{SlurmOptions}
use interlink_condorce_plugi.Slurm.Flavors.{
  Pod, resolve_slurm_flavor, update_with_resource_requests,
}
use interlink_condorce_plugi.Slurm.Script.{sbatch_flags, slurm_script}

pub data Call : Type 0 where
  make_directory make_executable remove_tree : Text → Call
  write_file : (path content : Text) → Call
  run : List Text → Call

-- the outcome of `mkdir`: PermissionError is logged, any other exception leaves the method
pub data Made : Type 0 where
  made denied : Made
  refused : Error → Made

pub record Host : Type 0 where
  pub mkdir : Text → Made
  pub write : Text → Result (Unit {0})
  pub chmod : Text → Result (Unit {0})
  pub sbatch : List Text → Result Text

abbrev pub Trace : Type 0
Trace = List Call

-- a call is made and then answered
unfoldable pub make_call : {A : Type 0} → Call → Result A → Action Trace A
make_call c r calls = (r, calls ++ c ∷ [])

unfoldable pub after_mkdir : Made → Result (Unit {0})
after_mkdir made = ok tt
after_mkdir denied = ok tt
after_mkdir (refused e) = err e

unfoldable pub digits_prefix : Text → Text
digits_prefix [] = []
digits_prefix (c ∷ t) = if leb b'0' c && leb c b'9' then c ∷ digits_prefix t else []

unfoldable pub nonempty : Text → Option Text → Option Text
nonempty [] other = other
nonempty (c ∷ t) other = some (c ∷ t)

abbrev pub submitted : Text
submitted = codes "Submitted batch job "

-- the group of the pattern, if it matches here
unfoldable pub job_id_here : Text → Text
unfolding starts_with digits_prefix codes
job_id_here t = if starts_with t submitted then digits_prefix (drop (length submitted) t) else []

-- `re.search(r"Submitted batch job (\d+)", stdout)`, on ASCII
unfoldable pub job_id_of : Text → Option Text
unfolding job_id_here nonempty
job_id_of [] = none
job_id_of (c ∷ t) = nonempty (job_id_here (c ∷ t)) (job_id_of t)

-- `Path(directory) / name`
unfoldable pub slash : (directory name : Text) → Text
slash directory name = directory ++ (b'/' ∷ name)

module _ (host : Host) where
  unfoldable pub make_directories : List Text → Action Trace (Unit {0})
  unfolding make_call after_mkdir
  make_directories [] = pure tt
  make_directories (d ∷ ds) = do
    make_call (make_directory d) (after_mkdir (host.mkdir d))
    make_directories ds

module _ (parse_quantity : Text → Result ℕ) where
  -- the options of the job
  unfoldable pub job_options : Pod → SlurmOptions → Result SlurmOptions
  unfolding resolve_slurm_flavor update_with_resource_requests
  job_options pod o = elim (resolve_slurm_flavor parse_quantity pod o) [
    | err e ↦ err e
    | ok o' ↦ update_with_resource_requests parse_quantity pod o'
  ]

module _ (parse_quantity : Text → Result ℕ) (host : Host) where
  unfoldable pub create_pod :
      BuildConfig → (job_name job_sh : Text) → Pod → Action Trace (Option Text)
  unfolding slash
  create_pod config job_name job_sh pod =
      let sandbox = slash config.slurm.sandbox job_name in
      let scratch_area = slash config.volumes.scratch_area job_name in
      let job_script_path = slash sandbox (codes "job_script.sh") in
      let slurm_script_path = slash sandbox (codes "job.sh") in
      do
        make_directories host (config.volumes.apptainer_cachedir ∷ scratch_area ∷ sandbox ∷ [])
        make_call (write_file job_script_path job_sh) (host.write job_script_path)
        make_call (make_executable job_script_path) (host.chmod job_script_path)
        scfg ← lift (job_options parse_quantity pod config.slurm)
        flags ←
            lift
              (sbatch_flags ((codes "sandbox", sandbox) ∷ (codes "job_name", job_name) ∷ []) scfg)
        let script = slurm_script job_name flags sandbox job_script_path scfg
        make_call (write_file slurm_script_path script) (host.write slurm_script_path)
        let command = scfg.sbatch_executable ∷ slurm_script_path ∷ []
        stdout ← make_call (run command) (host.sbatch command)
        pure (job_id_of stdout)
