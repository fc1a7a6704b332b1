-- ===== src/SubmissionRecord.antt =====
-- natsprovider/SubmissionRecord.py: the jobs that a provider has lately begun to submit. A time is
-- a number of microseconds.
pub mod Memory
use interlink_condorce_plugi.Prelude.{
  ℕ, ◌+◌, ◌-◌, ◌*◌, Text, List, [], ◌∷◌, ◌++◌, map, Option, Bool, length, drop, keep, contains,
  get_or, ltb, nat_eq, list_eq,
}

pub record Submission : Type 0 where
  pub job_name : Text
  pub submission_timestamp : ℕ

pub record SubmissionRecord : Type 0 where
  pub max_length : ℕ
  pub timeout_seconds : ℕ
  pub queue : List Submission

-- `deque.append` with `maxlen`: what is too old leaves on the left
unfoldable pub append : ℕ → Submission → List Submission → List Submission
append max_length s q = let longer = q ++ s ∷ [] in drop (length longer - max_length) longer

-- `timestamp` is the argument, or `datetime.now()`
unfoldable pub mark_job_as_submitted : Text → ℕ → SubmissionRecord → SubmissionRecord
unfolding append
mark_job_as_submitted name timestamp r = record r {
  queue =
      append r.max_length (record { job_name = name; submission_timestamp = timestamp }) r.queue;
}

-- `s.seconds_since_submission < timeout`, that is `submission_timestamp - now < timeout`
unfoldable pub within_timeout : ℕ → ℕ → Submission → Bool
within_timeout now timeout s = ltb s.submission_timestamp (now + timeout * 1_000_000)

unfoldable pub is_being_submitted : ℕ → Text → Option ℕ → SubmissionRecord → Bool
unfolding within_timeout keep contains
is_being_submitted now name timeout_seconds r =
    let timeout = get_or timeout_seconds r.timeout_seconds in
    contains (map (λ s. s.job_name) (keep (within_timeout now timeout) r.queue)) name
