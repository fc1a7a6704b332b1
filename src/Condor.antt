-- ===== src/Condor.antt =====
-- natsprovider/condor/CondorConfiguration.py: the client of HTCondor. Its calls are made again when they
-- fail, four times in all; what they answer is a parameter, by the number of the attempt. The children
-- model the methods.
pub mod Schedd
pub mod Submit
pub mod Output
pub mod Backend
pub mod Attempts
pub mod Locating
pub mod Submitted
use interlink_condorce_plugi.Prelude.{
  ℕ, zero, suc, ◌+◌, Text, List, [], ◌∷◌, Option, Bool, true, false, Result, Error, ok, err,
  htcondor_io_error, called_process_error, value_error, if◌then◌else◌,
}
use interlink_condorce_plugi.Action.{Action}

-- JobStatus, which the package exports as CondorJobStatus
pub data CondorJobStatus : Type 0 where
  unexpanded idle running removed completed held error : CondorJobStatus

-- the members, by their values from 0 on
abbrev pub members : List CondorJobStatus
members = unexpanded ∷ idle ∷ running ∷ removed ∷ completed ∷ held ∷ error ∷ []

unfoldable pub member_at : List CondorJobStatus → ℕ → Result CondorJobStatus
member_at [] n = err value_error
member_at (s ∷ ss) zero = ok s
member_at (s ∷ ss) (suc n) = member_at ss n

-- `JobStatus(code)`
unfoldable pub status_of_code : ℕ → Result CondorJobStatus
unfolding member_at
status_of_code n = member_at members n

-- the entries of a job's ClassAd that the repository reads
pub record CondorJob : Type 0 where
  pub cluster_id : ℕ
  pub job_status : ℕ
  pub job_submit_file : Text
  pub transfer_output_remaps : Text
  pub transfer_output : Option Text
  pub iwd : Text

abbrev pub condor_attempts : ℕ
condor_attempts = 3

-- `except htcondor.HTCondorIOError` and `except subprocess.CalledProcessError`
unfoldable pub is_io_error : Error → Bool
is_io_error htcondor_io_error = true
is_io_error _ = false

unfoldable pub is_called_process_error : Error → Bool
is_called_process_error called_process_error = true
is_called_process_error _ = false

-- an attempt that has ended so, with others left
unfoldable pub after_attempt :
    {S A : Type 0} (catches : Error → Bool) → Result A × S → (again : Action S A) → Result A × S
after_attempt catches (ok a, s) again = (ok a, s)
after_attempt catches (err e, s) again = if catches e then again s else (err e, s)

-- `for attempt in range(CONDOR_ATTEMPTS+1)` with a body that returns, or raises an exception that is
-- caught in all attempts but the last one: the attempts from `i` on, of which `remaining` may fail.
unfoldable pub retry :
    {S A : Type 0} (catches : Error → Bool) (attempt : ℕ → Action S A) (remaining i : ℕ)
    → Action S A
unfolding after_attempt
retry catches attempt zero i s = attempt i s
retry catches attempt (suc n) i s =
    after_attempt catches (attempt i s) (retry catches attempt n (i + 1))
