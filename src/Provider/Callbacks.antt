-- ===== src/Provider/Callbacks.antt =====
-- `create_pod_callback`, `delete_pod_callback` and `get_pod_status_and_logs_callback` of
-- natsprovider/BaseNatsProvider.py. What the provider's own method returns or raises is an argument.
-- A callback gives the new state and the answer that it sends, if any, or the exception that leaves it.
use interlink_condorce_plugi.Prelude.{
  ℕ, Text, [], Option, none, some, Bool, true, all, ltb, Result, Error, ok, err, http,
  attribute_error, value_error, if◌then◌else◌,
}
use interlink_condorce_plugi.Utils.Responses.{
  NatsResponse, JobStatus, Phase, pending, unknown, bytes, status,
}
use interlink_condorce_plugi.SubmissionRecord.{
  SubmissionRecord, mark_job_as_submitted, is_being_submitted,
}
use interlink_condorce_plugi.Subjects.{last_token}
use interlink_condorce_plugi.Provider.{Provider, register, drop_subscriptions}

abbrev pub Answer : Type 0
Answer = Result (Option NatsResponse)

abbrev pub respond : ℕ → Text → Answer
respond code body = ok (some (record { status_code = code; data_ = bytes body }))

-- only an HTTPException is caught; its code and detail are sent
unfoldable pub failure : Error → Answer
failure (http code detail) = respond code detail
failure e = err e

-- `job_id_in_backend.encode('ascii')`, which None does not have
unfoldable pub answer_create : Result (Option Text) → Answer
unfolding failure all
answer_create (err e) = failure e
answer_create (ok none) = err attribute_error
answer_create (ok (some id)) = if all (λ c. ltb c 128) id then respond 200 id else err value_error

abbrev pub mark : ℕ → Text → Provider → Provider
mark now job p = record p { submission_record = mark_job_as_submitted job now p.submission_record }

-- `body` is the decompressed and parsed message, or the exception that parsing it raised.
module _ {Pod : Type 0} (create_pod : Text → Text → Pod → Result (Option Text)) where
  unfoldable pub create_pod_callback :
      ℕ → (subject_ : Text) → Result (Text × Pod) → Provider → Provider × Answer
  unfolding answer_create register
  create_pod_callback now subject_ body p =
      let job = last_token subject_ in
      let marked = mark now job p in
      elim body [
        | err e ↦ (marked, err e)
        | ok (job_sh, pod) ↦ (register job marked, answer_create (create_pod job job_sh pod))
      ]

unfoldable pub after_delete : Text → Result (Unit {0}) → Provider → Provider × Answer
unfolding failure
after_delete job (err e) p = (p, failure e)
after_delete job (ok _) p = (drop_subscriptions job p, respond 200 [])

unfoldable pub delete_pod_callback :
    (subject_ : Text) → (Text → Result (Unit {0})) → Provider → Provider × Answer
unfolding after_delete
delete_pod_callback subject_ delete_pod p =
    let job = last_token subject_ in after_delete job (delete_pod job) p

-- a status that the backend does not know is pending if the job is being submitted
unfoldable pub settle : Bool → Phase → Phase
settle true unknown = pending
settle _ phase = phase

-- The branch for a missing status builds a response and does not send it.
unfoldable pub answer_status : ℕ → Text → SubmissionRecord → Result (Option JobStatus) → Answer
unfolding failure settle
answer_status now job r (err e) = failure e
answer_status now job r (ok none) = ok none
answer_status now job r (ok (some s)) = ok (
    some (record {
      status_code = 200;
      data_ = status (record s { phase = settle (is_being_submitted now job none r) s.phase });
    }))

unfoldable pub get_pod_status_and_logs_callback :
    ℕ → (subject_ : Text) → (Text → Result (Option JobStatus)) → Provider → Provider × Answer
unfolding answer_status
get_pod_status_and_logs_callback now subject_ get_pod_status_and_logs p =
    let job = last_token subject_ in
    (p, answer_status now job p.submission_record (get_pod_status_and_logs job))
