-- ===== src/Examples/OfGateway.antt =====
-- The theorems on natsprovider/NatsGateway.py, applied to a pod and a gateway with Redis.
use interlink_condorce_plugi.Prelude.Numbers.{digits}
use interlink_condorce_plugi.Utils.JobId.{get_readable_jobid, make_uid_numeric}
use interlink_condorce_plugi.Prelude.{
  ℕ, zero, suc, ◌<◌, ◌≡◌, refl, Text, codes, [], ◌∷◌, Option, none, some, true, false, Result, ok,
  err, attribute_error, nat_eq, list_eq, list_beq, if◌then◌else◌, ◌≤◌, ◌∙◌, ap, ◌⊎◌, sym,
}
use interlink_condorce_plugi.Prelude.Dicts.{get, put}
use interlink_condorce_plugi.Prelude.Int.{pos}
use interlink_condorce_plugi.Utils.Responses.{
  bytes, status, succeeded, unknown, NatsResponse, JobStatus, raise_for_status,
}
use interlink_condorce_plugi.Interlink
use interlink_condorce_plugi.Interlink.{PodStatus}
use interlink_condorce_plugi.Subjects.{subject, last_token}
use interlink_condorce_plugi.Provider.Resync.{Outcome, response, timeout}
use interlink_condorce_plugi.Gateway.{
  Gateway, deleted, creating, delete_pod, create_job, created, deleting, nats_connection,
  retrieve_pool_from_tolerations,
}
use interlink_condorce_plugi.Gateway.Status.{poll, got, is_retriable}
use interlink_condorce_plugi.Gateway.PodStatus.{cached, get_pod_status, is_terminal, note_end}
use interlink_condorce_plugi.Gateway.Jobs.{
  pool_of, state_of, is_ok, create_job_traces, delete_pod_traces,
}
use interlink_condorce_plugi.Gateway.Listing.{
  Lists, resynced, created_job_listed, deleted_job_not_listed,
}
use interlink_condorce_plugi.Gateway.Transitions.{note_end_once}
use interlink_condorce_plugi.Gateway.Reports.{names_of, get_pod_status-Reports}
use interlink_condorce_plugi.Gateway.Caching.{get_pod_status_settled}
use interlink_condorce_plugi.Gateway.Polling.{poll_answer, get_pod_status_bytes}
use interlink_condorce_plugi.Gateway.Restart.{restart_build_configs, receive, without_files}
use interlink_condorce_plugi.BuildConfig.{BuildConfig}
use interlink_condorce_plugi.Examples.{
  pod, job, pod-jobid, pod_pool, redis, gateway, print, build, builder, untar, build_config, init,
}

-- nobody answers
abbrev silent : Text → Outcome
silent s = timeout

-- every request is answered by `200` and a body
abbrev accepting : Text → Outcome
accepting s = response (record { status_code = 200; data_ = bytes [] })

create_job_traces_example :
    let (result, g) = create_job print build build_config silent pod gateway in
    (pool_of job g ≡ some (codes "p"))
    × (state_of job g ≡ some (if is_ok result then created else creating))
create_job_traces_example =
    create_job_traces print build build_config silent pod gateway redis (codes "p") job refl
      pod_pool pod-jobid

delete_pod_traces_example :
    let (result, g) = delete_pod print accepting pod gateway in
    (pool_of job g ≡ (if is_ok result then none else pool_of job gateway))
    × (state_of job g ≡ some (if is_ok result then deleted else deleting))
delete_pod_traces_example = delete_pod_traces print accepting pod gateway redis job refl pod-jobid

-- the subject of a provider of the pool that asks for its jobs
abbrev resync_subject : Text
resync_subject = codes "interlink.resync.p"

resync_pool : last_token resync_subject ≡ codes "p"
unfolding last_token codes
resync_pool = refl

created_job_listed_example :
    Lists
      (resynced resync_subject (create_job print build build_config silent pod gateway).1)
      job
      true
created_job_listed_example =
    created_job_listed print build build_config silent pod gateway redis job resync_subject refl
      (pod_pool ∙ ap ok (sym resync_pool)) pod-jobid

delete_pod_accepted : (delete_pod print accepting pod gateway).0 ≡ ok tt
unfolding delete_pod get_readable_jobid list_beq codes make_uid_numeric digits nats_connection
    raise_for_status
delete_pod_accepted = refl

deleted_job_not_listed_example :
    Lists (resynced resync_subject (delete_pod print accepting pod gateway).1) job false
deleted_job_not_listed_example =
    deleted_job_not_listed print accepting pod gateway redis job resync_subject refl pod-jobid
      delete_pod_accepted

note_end_once_example :
    (note_end false job (codes "p") (note_end true job (codes "p") gateway)).transitions
    ≡ (note_end true job (codes "p") gateway).transitions
note_end_once_example = note_end_once true false job (codes "p") gateway

-- a job that has ended, with a log
abbrev ended_status : JobStatus
ended_status = record { phase = succeeded; logs_tarball = codes "t"; reason = none }

abbrev answering : ℕ → Text → Outcome
answering i s = response (record { status_code = 200; data_ = status ended_status })

abbrev reported : PodStatus
reported = record {
  name = codes "a";
  uid = codes "7";
  namespace = codes "b";
  containers =
      record { name = codes "main"; state = Interlink.terminated (pos 0) (codes "Completed") } ∷ [];
  init_containers = [];
}

abbrev after : Gateway
after = (get_pod_status untar builder print 1 answering pod gateway).1

nothing_cached : cached job gateway ≡ none
unfolding cached get
nothing_cached = refl

reports_ended :
    get_pod_status untar builder print 1 answering pod gateway ≡ (ok (some reported), after)
unfolding get_pod_status get_readable_jobid list_beq codes make_uid_numeric digits
    retrieve_pool_from_tolerations raise_for_status put
reports_ended = refl

get_pod_status-Reports_example :
    (names_of reported.containers ≡ codes "main" ∷ []) × (names_of reported.init_containers ≡ [])
get_pod_status-Reports_example =
    get_pod_status-Reports untar builder print 1 answering pod job gateway reported pod-jobid
      nothing_cached (ap (λ (m : Result (Option PodStatus) × Gateway). m.0) reports_ended)

polled_ended :
    poll 1 (λ i. answering i (subject gateway.nats_subject (codes "status") job)) 0 none
    ≡ ok (got (record { status_code = 200; data_ = status ended_status }))
unfolding poll
polled_ended = refl

get_pod_status_settled_example :
    get_pod_status untar builder print 1 (λ i. silent) pod after ≡ (ok (some reported), after)
unfolding is_terminal
get_pod_status_settled_example =
    get_pod_status_settled untar builder print 1 answering pod job (codes "p") 200 ended_status
      gateway after reported (λ i. silent) refl nothing_cached pod-jobid pod_pool polled_ended refl
      reports_ended

-- a provider that does not know the job at first
abbrev learning : ℕ → Outcome
learning zero = response (record {
  status_code = 200;
  data_ = status (record { phase = unknown; logs_tarball = []; reason = none });
})
learning (suc i) = response (record { status_code = 200; data_ = status ended_status })

polled_learning :
    poll 3 learning 0 none ≡ ok (got (record { status_code = 200; data_ = status ended_status }))
unfolding poll
polled_learning = refl

poll_answer_example :
    let r : NatsResponse = record { status_code = 200; data_ = status ended_status } in
    (k : ℕ) × (k ≤ 2)
    × (learning k ≡ response r)
    × ((is_retriable r ≡ ok false) ⊎ ((is_retriable r ≡ ok true) × (k ≡ 2)))
    × ((j : ℕ)
        → j < k
        → (q : NatsResponse) × (learning j ≡ response q) × (is_retriable q ≡ ok true))
poll_answer_example =
    poll_answer 2 learning (record { status_code = 200; data_ = status ended_status })
      polled_learning

abbrev refusing : ℕ → Text → Outcome
refusing i s = response (record { status_code = 404; data_ = bytes (codes "Job not found") })

get_pod_status_bytes_example :
    get_pod_status untar builder print 10 refusing pod gateway ≡ (err attribute_error, gateway)
get_pod_status_bytes_example =
    get_pod_status_bytes untar builder print 9 refusing pod job (codes "p") 404
      (codes "Job not found") gateway pod-jobid pod_pool nothing_cached refl

-- a configuration that names the file it was read from
abbrev from_file : BuildConfig
from_file = record build_config { input_toml_filename = some (codes "site.toml") }

restart_build_configs_example :
    let g =
      receive
        ((codes "interlink.config.p", ok from_file) ∷ [])
        (init (codes "interlink") (some redis)) in
    (init g.nats_subject g.redis).build_configs ≡ without_files g.build_configs
restart_build_configs_example =
    restart_build_configs (codes "interlink") redis
      ((codes "interlink.config.p", ok from_file) ∷ [])
