-- ===== src/Slurm.antt =====
-- natsprovider/slurmprovider/SlurmProvider.py: the backend that submits jobs to Slurm.
-- The tables of statuses and the state; the children model the methods.
pub mod Sacct
pub mod Cache
pub mod Status
pub mod LogLoop
pub mod Tables
pub mod Flavors
pub mod Matching
pub mod Requests
pub mod Script
pub mod Submission
pub mod Submitted
pub mod NoId
pub mod Delete
pub mod Cleanup
use interlink_condorce_plugi.Prelude.{
  ℕ, Text, codes, List, [], ◌∷◌, Option, any, contains_text, Bool,
}
use interlink_condorce_plugi.Prelude.Dicts.{Dict}

abbrev pub pending_statuses : List Text
pending_statuses =
    codes "CONFIGURING"
    ∷ codes "PENDING"
    ∷ codes "RESV_DEL_HOLD"
    ∷ codes "REQUEUE_FED"
    ∷ codes "REQUEUE_HOLD"
    ∷ codes "RESIZING"
    ∷ codes "STAGE_OUT"
    ∷ []

abbrev pub running_statuses : List Text
running_statuses =
    codes "COMPLETING"
    ∷ codes "RUNNING"
    ∷ codes "SIGNALING"
    ∷ codes "MIGRATING"
    ∷ codes "SUSPENDED"
    ∷ codes "STOPPED"
    ∷ codes "REVOKED"
    ∷ []

abbrev pub failed_statuses : List Text
failed_statuses =
    codes "BOOT_FAILED"
    ∷ codes "CANCELLED"
    ∷ codes "DEADLINE"
    ∷ codes "COMPLETING"
    ∷ codes "DEADLINE"
    ∷ codes "OUT_OF_MEMORY"
    ∷ codes "SPECIAL_EXIT"
    ∷ codes "STAGE_OUT"
    ∷ codes "CANCELLED"
    ∷ codes "TIMEOUT"
    ∷ []

abbrev pub completed_statuses : List Text
completed_statuses = codes "COMPLETED" ∷ []

-- `any([s in job_status for s in statuses])`
unfoldable pub names_one_of : List Text → Text → Bool
unfolding any contains_text
names_one_of statuses job_status = any (contains_text job_status) statuses

-- `_cached_squeue_time`: None, "processing", or the time of the last query in microseconds
pub data QueryTime : Type 0 where
  never processing : QueryTime
  at : ℕ → QueryTime

pub record Squeue : Type 0 where
  pub cached_squeue : Dict Text Text
  pub cached_squeue_time : QueryTime
