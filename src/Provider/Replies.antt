-- ===== src/Provider/Replies.antt =====
-- What the callbacks of natsprovider/BaseNatsProvider.py answer, and the jobs that they serve.
use interlink_condorce_plugi.Prelude.{
  ℕ, ◌<◌, ◌≡◌, ◌≢◌, refl, Text, codes, List, [], ◌∷◌, ◌++◌, map, keep, join, starts_with,
  split_last, split_last_none, Option, none, some, true, false, All, HasNone, contains, Result, ok,
  nat_eq, list_eq, ◌==◌, beq_ne, Bool-cases, inl, inr, if◌then◌else◌, starts_with_missing, ◌&&◌,
  Bool,
}
use interlink_condorce_plugi.Prelude.Dicts.{keys, has}
use interlink_condorce_plugi.Utils.Responses.{
  JobStatus, status, Phase, pending, running, succeeded, failed, unknown,
}
use interlink_condorce_plugi.SubmissionRecord.Memory.{IsPast, is_being_submitted_ever}
use interlink_condorce_plugi.Subjects.{subject, last_token, last_token-subject}
use interlink_condorce_plugi.Provider.{Provider, subscribed_jobs}
use interlink_condorce_plugi.Provider.Callbacks.{
  settle, answer_status, get_pod_status_and_logs_callback, delete_pod_callback,
}
use interlink_condorce_plugi.Provider.Subscriptions.{has-drop_subscriptions}

abbrev pub is_unknown : Phase → Bool
is_unknown unknown = true
is_unknown phase = false

settle-if :
    (b : Bool) (phase : Phase) → settle b phase ≡ (if b && is_unknown phase then pending else phase)
unfolding settle
settle-if true pending = refl
settle-if true running = refl
settle-if true succeeded = refl
settle-if true failed = refl
settle-if true unknown = refl
settle-if false phase = refl

-- If the timeout is positive and no submission is in the future, a status that the backend gives for
-- a job goes out as it is, except that an unknown phase becomes pending exactly if the name of the
-- job is in the record of submissions, whenever it was put there.
pub get_pod_status_unknown :
    (p : Provider) (now : ℕ) (subject_ : Text) (get_status : Text → Result (Option JobStatus))
    (s : JobStatus)
    → 0 < p.submission_record.timeout_seconds
    → IsPast now p.submission_record.queue
    → get_status (last_token subject_) ≡ ok (some s)
    → let recorded =
        contains (map (λ x. x.job_name) p.submission_record.queue) (last_token subject_) in
      (get_pod_status_and_logs_callback now subject_ get_status p).1
      ≡ ok (
          some (record {
            status_code = 200;
            data_ =
                status (record s {
                  phase = if recorded && is_unknown s.phase then pending else s.phase;
                });
          }))
unfolding get_pod_status_and_logs_callback
get_pod_status_unknown p now subject_ get_status s h past e =
    rw (e, answer_status)
      (rw (
        is_being_submitted_ever p.submission_record now (last_token subject_) none h past,
        settle-if (contains (map (λ x. x.job_name) p.submission_record.queue) (last_token subject_))
            s.phase,
      ))

-- A delete request for a job name without dots, once the backend has deleted the job, takes out of
-- the table exactly the subjects whose last token is the job.
pub delete_pod_callback_subjects :
    (p : Provider) (job : Text) (delete_pod : Text → Result (Unit {0}))
    → HasNone b'.' job
    → delete_pod job ≡ ok tt
    → (s : Text)
    → has
        (delete_pod_callback
          (subject p.nats_subject (codes "delete") job)
          delete_pod
          p).0.subscriptions
        s
      ≡ (if last_token s == job then false else has p.subscriptions s)
unfolding delete_pod_callback
delete_pod_callback_subjects p job delete_pod h e s =
    rw (last_token-subject p.nats_subject (codes "delete") job h, e)
      (has-drop_subscriptions p job s)

prefixed_ne :
    (base job k : Text)
    → HasNone b'.' job
    → starts_with k (base ++ b'.' ∷ codes "status") ≡ true
    → k ≢ job
prefixed_ne base job k h s e = starts_with_missing b'.' job base (codes "status") (rw e at s) h

no_job_among :
    (base job : Text) (ks : List Text)
    → HasNone b'.' job
    → All (HasNone b':') ks
    → contains
        (map (split_last b':') (keep (λ s. starts_with s (base ++ b'.' ∷ codes "status")) ks))
        job
      ≡ false
unfolding contains keep
no_job_among base job [] h k = refl
no_job_among base job (s ∷ ks) h k =
    elim (Bool-cases (starts_with s (base ++ b'.' ∷ codes "status"))) [
      | inl hit ↦ rw hit (
          rw (split_last_none b':' s k.0, beq_ne s job (prefixed_ne base job s h hit))
            (no_job_among base job ks h k.1))
      | inr miss ↦ rw miss (no_job_among base job ks h k.1)
    ]

-- If no subject has a colon, `subscribed_jobs` contains no job name without dots, whatever the
-- provider is subscribed to: its entries are whole subjects.
pub subscribed_jobs_none :
    (p : Provider) (job : Text)
    → HasNone b'.' job
    → All (HasNone b':') (keys p.subscriptions)
    → contains (subscribed_jobs p) job ≡ false
unfolding subscribed_jobs join codes
subscribed_jobs_none p job h k = no_job_among p.nats_subject job (keys p.subscriptions) h k
