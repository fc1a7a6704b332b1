-- ===== src/Examples/OfProvider.antt =====
-- The theorems on natsprovider/BaseNatsProvider.py and the modules it uses, applied to a provider.

use interlink_condorce_plugi.Prelude.{
  ℕ, zero, suc, ◌<◌, ◌≡◌, ◌↔◌, refl, Text, codes, List, [], ◌∷◌, map, Option, none, some, true,
  false, Result, ok, arith, nat_eq, list_eq, list_beq, if◌then◌else◌, inl, ◌⊎◌, HasNone, contains,
  ◌==◌, ◌&&◌,
}
use interlink_condorce_plugi.Prelude.Dicts.{has}
use interlink_condorce_plugi.Utils.Responses.{names, status, unknown, JobStatus, pending}
use interlink_condorce_plugi.BuildConfig.{BuildConfig}
use interlink_condorce_plugi.SubmissionRecord.{mark_job_as_submitted}
use interlink_condorce_plugi.Subjects.{subject, create_subject, last_token}
use interlink_condorce_plugi.Subjects.Routing.{routing_exact}
use interlink_condorce_plugi.Provider.{
  Provider, init, subscribe_all, status_subject, delete_subject, register,
}
use interlink_condorce_plugi.Provider.Callbacks.{
  get_pod_status_and_logs_callback, delete_pod_callback,
}
use interlink_condorce_plugi.Provider.Resync.{Outcome, response, timeout, resync}
use interlink_condorce_plugi.Provider.Recovery.{resync_recovers}
use interlink_condorce_plugi.Provider.Publishing.{Defaults}
use interlink_condorce_plugi.Provider.Subscriptions.{IsPaired}
use interlink_condorce_plugi.Provider.Replies.{
  get_pod_status_unknown, delete_pod_callback_subjects, is_unknown,
}
use interlink_condorce_plugi.Provider.Events.{Event, run, run-IsPaired}
use interlink_condorce_plugi.Examples.{build_config, no_resources, print, job}

abbrev provider : Provider
provider = init (codes "interlink") (codes "p") build_config no_resources true none true

abbrev defaults : Defaults
defaults = record {
  default_cpu = codes "2";
  default_memory = codes "2Gi";
  default_pods = 10;
  default_gpus = 0;
}

abbrev create_pod : Text → Text → Unit {0} → Result (Option Text)
create_pod name sh p = ok (some name)

abbrev delete_pod : Text → Result (Unit {0})
delete_pod name = ok tt

-- a backend that has lost the job
abbrev forgetful : Text → Result (Option JobStatus)
forgetful name = ok (some (record { phase = unknown; logs_tarball = []; reason = none }))

abbrev keep_config : BuildConfig → BuildConfig
keep_config c = c

-- a job is created and deleted, and another one is created twice
abbrev events : List (Event (Unit {0}))
events =
    Event.create 1 (codes "interlink.create.p.x") (ok ([], tt))
    ∷ Event.delete (codes "interlink.delete.x")
    ∷ Event.create 2 (codes "interlink.create.p.y") (ok ([], tt))
    ∷ Event.create 3 (codes "interlink.create.p.y") (ok ([], tt))
    ∷ []

run-IsPaired_example : IsPaired (
    run create_pod delete_pod forgetful keep_config keep_config defaults print events
      (subscribe_all provider))
unfolding init
run-IsPaired_example =
    run-IsPaired create_pod delete_pod forgetful keep_config keep_config defaults print events
      provider refl

-- the gateway answers the second request
abbrev late : ℕ → Outcome
late zero = timeout
late (suc i) = response (record { status_code = 200; data_ = names (job ∷ []) })

contains-job : contains (job ∷ []) job ≡ true
unfolding contains list_beq codes
contains-job = refl

late_lost : (j : ℕ) → j < 1 → (late j ≡ timeout) ⊎ (late j ≡ Outcome.no_responders)
late_lost zero h = inl refl
late_lost (suc j) h = absurd (omega arith)

resync_recovers_example :
    let (p', result) = resync print late provider in
    (result ≡ ok tt)
    × (has p'.subscriptions (status_subject provider job) ≡ true)
    × (has p'.subscriptions (delete_subject provider job) ≡ true)
resync_recovers_example =
    resync_recovers print late provider 1 200 (job ∷ []) job (omega arith) late_lost refl
      (omega arith, omega arith) contains-job

-- the job has been marked
abbrev submitting : Provider
submitting = record provider {
  submission_record = mark_job_as_submitted job 5 provider.submission_record;
}

get_pod_status_unknown_example :
    let recorded =
      contains
        (map (λ x. x.job_name) submitting.submission_record.queue)
        (last_token (codes "interlink.status.b-a-7")) in
    (get_pod_status_and_logs_callback 100 (codes "interlink.status.b-a-7") forgetful submitting).1
    ≡ ok (
        some (record {
          status_code = 200;
          data_ = status (record {
            phase = if recorded && is_unknown unknown then pending else unknown;
            logs_tarball = [];
            reason = none;
          });
        }))
unfolding mark_job_as_submitted init
get_pod_status_unknown_example =
    get_pod_status_unknown submitting 100 (codes "interlink.status.b-a-7") forgetful
      (record { phase = unknown; logs_tarball = []; reason = none }) (omega arith) (omega arith, tt)
      refl

job-HasNone : HasNone b'.' job
unfolding codes
job-HasNone = (omega arith, (omega arith, (omega arith, (omega arith, (omega arith, tt)))))

delete_pod_callback_subjects_example :
    has
      (delete_pod_callback
        (subject (codes "interlink") (codes "delete") job)
        delete_pod
        (register job provider)).0.subscriptions
      (codes "interlink.status.b-a-7")
    ≡ (if last_token (codes "interlink.status.b-a-7") == job
        then false
        else has (register job provider).subscriptions (codes "interlink.status.b-a-7"))
unfolding codes register init
delete_pod_callback_subjects_example =
    delete_pod_callback_subjects (register job provider) job delete_pod job-HasNone refl
      (codes "interlink.status.b-a-7")

routing_exact_example :
    ((last_token (subject (codes "interlink") (codes "status") job) ≡ job) ↔ HasNone b'.' job)
    × ((last_token (create_subject (codes "interlink") (codes "p") job) ≡ job) ↔ HasNone b'.' job)
routing_exact_example = routing_exact (codes "interlink") (codes "status") (codes "p") job
