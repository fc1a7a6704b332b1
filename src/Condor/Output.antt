-- ===== src/Condor/Output.antt =====
-- The output of a job and its removal, in natsprovider/condor/CondorConfiguration.py. What the shell
-- answers is given by the number of the attempt; `read_file` is the content of a file or the exception
-- that opening it raises.
use interlink_condorce_plugi.Prelude.{
  ℕ, Text, codes, List, [], ◌∷◌, ◌++◌, none, some, Bool, true, false, nat_beq, join, split_at,
  Result, ok, err, index_error, nat_eq, list_eq, list_beq, if◌then◌else◌,
}
use interlink_condorce_plugi.Prelude.Paths.{join_path}
use interlink_condorce_plugi.Prelude.Numbers.{decimal}
use interlink_condorce_plugi.Prelude.Dicts.{Dict, put}
use interlink_condorce_plugi.Action.{Action, pure, lift, ◌>>=◌, ◌>>◌}
use interlink_condorce_plugi.Condor.{CondorJob, is_called_process_error, retry, condor_attempts}
use interlink_condorce_plugi.Condor.Submit.{shell, Trace, make_call}

-- a text, or an io.BytesIO
pub data Retrieved : Type 0 where
  text stream : Text → Retrieved

-- `os.path.dirname(path)`: what stands before the last slash. The root, and slashes that end the
-- directory, are not treated as os.path does.
unfoldable pub dirname_from : (before seen : Text) → Text → Text
dirname_from before seen [] = before
dirname_from before seen (c ∷ t) =
    let here = dirname_from seen (seen ++ c ∷ []) t in
    let on = dirname_from before (seen ++ c ∷ []) t in if nat_beq c b'/' then here else on

unfoldable pub dirname : Text → Text
unfolding dirname_from
dirname t = dirname_from [] [] t

-- `f.split("=")[0]` and `f.split("=")[1]`
unfoldable pub remap : Text → Result (Text × Text)
unfolding split_at
remap f = elim (split_at b'=' f) [ lfn ∷ path ∷ rest ↦ ok (lfn, path) | _ ↦ err index_error ]

module _ (read_file : Text → Result Text) where
  unfoldable pub remapped : List Text → Dict Text Retrieved → Result (Dict Text Retrieved)
  unfolding remap put list_beq
  remapped [] d = ok d
  remapped (f ∷ fs) d = elim (remap f) [
    | err e ↦ err e
    | ok (lfn, path) ↦ elim (read_file path) [
      | err e ↦ err e
      | ok content ↦ remapped fs (put d lfn (text content))
    ]
  ]

  unfoldable pub transferred :
      (job_dir : Text) → List Text → Dict Text Retrieved → Result (Dict Text Retrieved)
  unfolding put list_beq join_path
  transferred job_dir [] d = ok d
  transferred job_dir (k ∷ ks) d = elim (read_file (join_path job_dir k)) [
    | err e ↦ err e
    | ok content ↦ transferred job_dir ks (put d k (stream content))
  ]

  -- `files.update({...})`, of which the reads come before the update
  unfoldable pub output_files : CondorJob → Result (Dict Text Retrieved)
  unfolding remapped transferred split_at
  output_files job = elim (remapped (split_at b';' job.transfer_output_remaps) []) [
    | err e ↦ err e
    | ok files ↦ elim job.transfer_output [
      | none ↦ ok files
      | some names ↦ transferred job.iwd (split_at b',' names) files
    ]
  ]

pub record Remote : Type 0 where
  pub token : Result (Unit {0})
  pub run : ℕ → Text → Result Text
  pub read_file : Text → Result Text

module _ (remote : Remote) (pool scheduler_name : Text) where
  -- a command with the names of the pool and of the scheduler
  unfoldable pub command_for : (program : Text) → (argument : Text) → Text
  unfolding join codes
  command_for program argument =
      join (codes " ")
        (program ∷ (codes "-pool " ++ pool) ∷ (codes "-name " ++ scheduler_name) ∷ argument ∷ [])

  unfoldable pub run_shell : (command : Text) → ℕ → Action Trace Text
  unfolding make_call
  run_shell command i = make_call (shell command) (remote.run i command)

  unfoldable pub retrieve_job_output :
      CondorJob → (cleanup : Bool) → Action Trace (Dict Text Retrieved)
  unfolding command_for run_shell dirname decimal output_files codes
  retrieve_job_output job cleanup =
      let condor_dir = dirname job.job_submit_file in
      let transfer = command_for (codes "condor_transfer_data") (decimal job.cluster_id) in
      do
        lift remote.token
        made ←
            run_shell (codes "mkdir -p " ++ (condor_dir ++ (codes "; chmod a+w " ++ condor_dir))) 0
        moved ← retry is_called_process_error (run_shell transfer) condor_attempts 0
        files ← lift (output_files remote.read_file job)
        elim cleanup [
          | false ↦ pure files
          | true ↦ run_shell (codes "rm -rf " ++ condor_dir) 0 >>= λ removed. pure files
        ]

  unfoldable pub delete : (job_id : ℕ) → Action Trace Text
  unfolding command_for run_shell decimal codes
  delete job_id = do
    lift remote.token
    retry is_called_process_error (run_shell (command_for (codes "condor_rm") (decimal job_id)))
        condor_attempts 0

  -- one attempt only
  unfoldable pub delete_by_name : (job_name : Text) → Action Trace Text
  unfolding command_for run_shell codes
  delete_by_name job_name = do
    lift remote.token
    run_shell
        (command_for (codes "condor_rm")
          (codes "-constraint 'JobBatchName == \"" ++ (job_name ++ codes "\"'")))
        0

  -- `retrieve_by_name`, once the query has answered with `job`
  unfoldable pub retrieve_by_name :
      (job_name : Text)
      → (job : Result CondorJob) → (cleanup : Bool) → Action Trace (Dict Text Retrieved)
  retrieve_by_name job_name job cleanup = do
    job' ← lift job
    files ← retrieve_job_output job' cleanup
    elim cleanup [ false ↦ pure files | true ↦ delete_by_name job_name >>= λ removed. pure files ]

  -- `retrieve`, once the query has answered with `job`
  unfoldable pub retrieve :
      (job_id : ℕ)
      → (job : Result CondorJob) → (cleanup : Bool) → Action Trace (Dict Text Retrieved)
  retrieve job_id job cleanup = do
    job' ← lift job
    files ← retrieve_job_output job' cleanup
    elim cleanup [ false ↦ pure files | true ↦ delete job_id >>= λ removed. pure files ]
