-- ===== src/Slurm/Status.antt =====
-- `get_pod_status_and_logs` of natsprovider/slurmprovider/SlurmProvider.py, on the status that
-- `_retrieve_job_status` has returned.
use interlink_condorce_plugi.Prelude.{
  ℕ, zero, suc, ◌+◌, Text, [], ◌∷◌, Option, none, some, if◌then◌else◌,
}
use interlink_condorce_plugi.Utils.Responses.{
  JobStatus, Phase, pending, running, succeeded, failed, unknown,
}
use interlink_condorce_plugi.Slurm.{
  names_one_of, pending_statuses, running_statuses, failed_statuses, completed_statuses,
}

abbrev pub job_status : Phase → Text → Option Text → JobStatus
job_status phase logs reason = record { phase = phase; logs_tarball = logs; reason = reason }

-- what an attempt to read the file of the logs gives: its bytes, or the text of an OSError
pub data Read : Type 0 where
  contents : Text → Read
  missing : Text → Read

-- `while True`, with fuel: `none` is a loop that has not ended. `reads i` is the attempt `i`.
unfoldable pub log_loop : (reads : ℕ → Read) → (fuel i remaining_attempts : ℕ) → Option JobStatus
log_loop reads zero i remaining = none
log_loop reads (suc fuel) i remaining = elim (reads i) [
  | contents [] ↦ log_loop reads fuel (i + 1) remaining
  | contents (b ∷ bytes) ↦ some (job_status succeeded (b ∷ bytes) none)
  | missing e ↦ elim remaining [
    | zero ↦ some (job_status failed [] (some e))
    | suc n ↦ log_loop reads fuel (i + 1) n
  ]
]

-- the branches of the method that do not read the logs, and the one that does
pub data Verdict : Type 0 where
  report : JobStatus → Verdict
  read_logs : Verdict

unfoldable pub verdict : Option Text → Verdict
unfolding names_one_of
verdict none = report (job_status unknown [] none)
verdict (some s) =
    if names_one_of failed_statuses s
    then report (job_status failed [] (some s))
    else if names_one_of pending_statuses s
    then report (job_status pending [] none)
    else if names_one_of running_statuses s
    then report (job_status running [] none)
    else if names_one_of completed_statuses s
    then read_logs
    else report (job_status unknown [] (some s))

unfoldable pub conclude : (reads : ℕ → Read) → ℕ → Verdict → Option JobStatus
unfolding log_loop
conclude reads fuel (report s) = some s
conclude reads fuel read_logs = log_loop reads fuel 0 5

unfoldable pub get_pod_status_and_logs : (reads : ℕ → Read) → ℕ → Option Text → Option JobStatus
unfolding verdict conclude
get_pod_status_and_logs reads fuel status = conclude reads fuel (verdict status)
