-- ===== src/Slurm/Delete.antt =====
-- `delete_pod` of natsprovider/slurmprovider/SlurmProvider.py: what it asks of squeue, scancel and the
-- file system, as a list of calls in their order. What the calls answer is a parameter.
use interlink_condorce_plugi.Prelude.{Text, codes, List, [], ◌∷◌, Error, ok, err}
use interlink_condorce_plugi.Prelude.Format.{words}
use interlink_condorce_plugi.Action.{Action, pure, ◌>>=◌, ◌>>◌}
use interlink_condorce_plugi.BuildConfig.{BuildConfig}
use interlink_condorce_plugi.Slurm.Submission.{run, remove_tree, Trace, make_call, slash}

-- `subprocess.run(..., check=True)`: what was printed, CalledProcessError for an exit code other than
-- zero, or another exception, as when there is no such executable
pub data Ran : Type 0 where
  printed : Text → Ran
  exit_code : Ran
  failed : Error → Ran

pub record Commands : Type 0 where
  pub squeue : List Text → Ran
  pub scancel : List Text → Ran

abbrev pub squeue_command : Text → List Text
squeue_command job_name =
    codes "squeue" ∷ codes "--name" ∷ job_name ∷ codes "--noheader" ∷ codes "-o" ∷ codes "%A" ∷ []

abbrev pub scancel_command : Text → List Text
scancel_command job_id = codes "scancel" ∷ job_id ∷ []

-- a call, of which a CalledProcessError is caught at the end of the `try`
unfoldable pub run_command : List Text → Ran → Action Trace Ran
unfolding make_call
run_command command (failed e) = make_call (run command) (err e)
run_command command r = make_call (run command) (ok r)

module _ (commands : Commands) where
  -- `for job_id in job_ids`, which a CalledProcessError ends
  unfoldable pub cancel_all : List Text → Action Trace (Unit {0})
  cancel_all [] = pure tt
  cancel_all (id ∷ ids) = do
    r ← run_command (scancel_command id) (commands.scancel (scancel_command id))
    elim r [ printed _ ↦ cancel_all ids | _ ↦ pure tt ]

  unfoldable pub cancel_listed : Ran → Action Trace (Unit {0})
  unfolding words
  cancel_listed (printed stdout) = cancel_all (words stdout)
  cancel_listed _ = pure tt

  -- Every exception that `rmtree` is expected to raise is caught and logged.
  unfoldable pub delete_pod : BuildConfig → (job_name : Text) → Action Trace (Unit {0})
  delete_pod config job_name = do
    r ← run_command (squeue_command job_name) (commands.squeue (squeue_command job_name))
    cancel_listed r
    make_call (remove_tree (slash config.slurm.sandbox job_name)) (ok tt)
    make_call (remove_tree (slash config.volumes.scratch_area job_name)) (ok tt)
