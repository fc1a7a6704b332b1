-- ===== src/Examples/OfSlurm.antt =====
-- The theorems on natsprovider/slurmprovider/SlurmProvider.py, applied to a small job.
use interlink_condorce_plugi.Prelude.{
  ℕ, zero, suc, ◌+◌, ◌-◌, ◌*◌, ◌≤◌, ◌≡◌, ◌≢◌, refl, Text, codes, List, [], ◌∷◌, ◌++◌, Option, none,
  some, Bool, true, false, Result, ok, err, attribute_error, contains, HasNone, nat_eq, list_eq,
  arith, All, or_else, map, contains_text,
}
use interlink_condorce_plugi.Prelude.Numbers.{value}
use interlink_condorce_plugi.Prelude.Dicts.{Dict, get, merge}
use interlink_condorce_plugi.Utils.Responses.{JobStatus, failed}
use interlink_condorce_plugi.Utils.PodResources.{Container, billion, compute_pod_resource}
use interlink_condorce_plugi.BuildConfig.{BuildConfig}
use interlink_condorce_plugi.BuildConfig.Slurm.{SlurmFlavor, SlurmOptions}
use interlink_condorce_plugi.Slurm.{Squeue, never, processing, at, failed_statuses}
use interlink_condorce_plugi.Slurm.Sacct.{retrieve_job_status, is_miss}
use interlink_condorce_plugi.Slurm.Cache.{print_table, last_row, retrieve_job_status-table, IsRow}
use interlink_condorce_plugi.Slurm.Status.{
  Read, contents, missing, verdict, read_logs, job_status, get_pod_status_and_logs,
}
use interlink_condorce_plugi.Slurm.LogLoop.{
  get_pod_status_and_logs-returns, get_pod_status_and_logs-hangs, get_pod_status_and_logs-attempts,
}
use interlink_condorce_plugi.Slurm.Flavors.{
  Pod, override, resolve_slurm_flavor, update_with_resource_requests,
}
use interlink_condorce_plugi.Slurm.Matching.{Resolved, resolve_slurm_flavor-first}
use interlink_condorce_plugi.Slurm.Requests.{Assigned, update_with_resource_requests-bounds}
use interlink_condorce_plugi.Slurm.Submission.{
  Call, Made, made, denied, Host, create_pod, job_id_of, submitted, run, remove_tree, slash,
  job_options,
}
use interlink_condorce_plugi.Slurm.Submitted.{Submitted, create_pod-Submitted, keywords, submission}
use interlink_condorce_plugi.Slurm.NoId.{Carries, create_pod_callback-no_id}
use interlink_condorce_plugi.Slurm.Script.{sbatch_flags}
use interlink_condorce_plugi.Slurm.Delete.{
  printed, exit_code, failed, Commands, squeue_command, delete_pod,
}
use interlink_condorce_plugi.Slurm.Cleanup.{StopsAt, delete_pod-cleans, listed, cancellations}
use interlink_condorce_plugi.Subjects.{last_token}
use interlink_condorce_plugi.Provider.{Provider, init, register}
use interlink_condorce_plugi.Provider.Callbacks.{create_pod_callback, mark}
use interlink_condorce_plugi.Examples.{build_config, slurm, no_resources, job}

-- a quantity is a decimal number here
abbrev parse : Text → Result ℕ
parse t = ok (value 8 0 (map (λ c. c - 48) t) * billion)

-- a container that asks for 3 cpus and 5000000 bytes
abbrev small : Container
small = record {
  resources =
      some (
        (codes "requests", (codes "cpu", codes "3") ∷ (codes "memory", codes "5000000") ∷ []) ∷ []);
}

abbrev slurm_pod : Pod
slurm_pod = record { containers = small ∷ []; active_deadline_seconds = some 600 }

-- one flavor is too short for the pod, the next one has room for it
abbrev short : SlurmFlavor
short = record {
  account = none;
  partition = some (codes "short");
  qos = none;
  generic_resources = [];
  max_time_seconds = some 60;
  max_resources = [];
  memory = none;
  cpu = none;
  ntasks = none;
  reservation = none;
  nodelist = none;
}

abbrev long : SlurmFlavor
long = record short {
  partition = some (codes "long");
  max_time_seconds = some 3600;
  max_resources = (codes "cpu", codes "4") ∷ (codes "memory", codes "8000000") ∷ [];
}

abbrev options : SlurmOptions
options = record slurm {
  flavors = some (short ∷ long ∷ []);
  cpu = some 1;
  memory = some (codes "2000000");
}

abbrev config : BuildConfig
config = record build_config { slurm = options }

resolved : resolve_slurm_flavor parse slurm_pod options ≡ ok (override long options)
unfolding resolve_slurm_flavor interlink_condorce_plugi.Slurm.Flavors.first_match
    interlink_condorce_plugi.Slurm.Flavors.matches interlink_condorce_plugi.Slurm.Flavors.conditions
    interlink_condorce_plugi.Slurm.Flavors.time_condition
    interlink_condorce_plugi.Slurm.Flavors.within compute_pod_resource
    interlink_condorce_plugi.Slurm.Flavors.get_max_resource
    interlink_condorce_plugi.Slurm.Flavors.generic_keys interlink_condorce_plugi.Prelude.all value
resolved = refl

resolve_slurm_flavor-first_example :
    Resolved parse slurm_pod options (short ∷ long ∷ []) (override long options)
resolve_slurm_flavor-first_example =
    resolve_slurm_flavor-first parse slurm_pod options (short ∷ long ∷ []) (override long options)
      refl resolved

abbrev requested : SlurmOptions
requested = record options { cpu = some 3; memory = some (codes "4M") }

cpus_requested : compute_pod_resource parse (small ∷ []) (codes "cpu") (codes "1") ≡ ok 3
unfolding compute_pod_resource value
cpus_requested = refl

memory_requested :
    compute_pod_resource parse (small ∷ []) (codes "memory") (codes "1") ≡ ok 5_000_000
unfolding compute_pod_resource value
memory_requested = refl

updated : update_with_resource_requests parse slurm_pod options ≡ ok requested
unfolding update_with_resource_requests compute_pod_resource
    interlink_condorce_plugi.Slurm.Flavors.given interlink_condorce_plugi.Slurm.Flavors.memory_flag
    value
updated = refl

update_with_resource_requests-bounds_example : Assigned parse 3 5_000_000 requested
update_with_resource_requests-bounds_example =
    update_with_resource_requests-bounds parse slurm_pod options requested 3 5_000_000
      cpus_requested memory_requested updated

-- every call succeeds, and sbatch prints `stdout`
abbrev host : Text → Host
host stdout = record {
  mkdir = λ d. denied;
  write = λ path. ok tt;
  chmod = λ path. ok tt;
  sbatch = λ command. ok stdout;
}

abbrev accepting : Host
accepting = host (codes "Submitted batch job 42\n")

-- on this host the method returns, whatever sbatch prints
returned :
    (name stdout : Text)
    → (create_pod parse (host stdout) config name (codes "true") slurm_pod []).0
      ≡ ok (job_id_of stdout)
unfolding create_pod interlink_condorce_plugi.Action.◌>>=◌
    interlink_condorce_plugi.Slurm.Submission.make_directories
    interlink_condorce_plugi.Slurm.Submission.job_options
    interlink_condorce_plugi.Slurm.Flavors.first_match
    interlink_condorce_plugi.Slurm.Flavors.matches interlink_condorce_plugi.Slurm.Flavors.conditions
    interlink_condorce_plugi.Slurm.Flavors.time_condition
    interlink_condorce_plugi.Slurm.Flavors.within compute_pod_resource
    interlink_condorce_plugi.Slurm.Flavors.get_max_resource
    interlink_condorce_plugi.Slurm.Flavors.generic_keys interlink_condorce_plugi.Prelude.all value
    interlink_condorce_plugi.Slurm.Flavors.given override
    interlink_condorce_plugi.Slurm.Script.sbatch_flags interlink_condorce_plugi.Action.lift
    interlink_condorce_plugi.Action.pure get interlink_condorce_plugi.Prelude.Dicts.keys
    interlink_condorce_plugi.Prelude.list_beq interlink_condorce_plugi.Prelude.collect
    interlink_condorce_plugi.Prelude.Format.interpolate
    interlink_condorce_plugi.Prelude.Format.looked_up interlink_condorce_plugi.Prelude.Format.read
    interlink_condorce_plugi.Prelude.keep interlink_condorce_plugi.Prelude.Numbers.decimal
    interlink_condorce_plugi.Prelude.Numbers.digits
    interlink_condorce_plugi.Prelude.Numbers.digits_within codes
    interlink_condorce_plugi.Prelude.join interlink_condorce_plugi.Prelude.starts_with
    interlink_condorce_plugi.Slurm.Flavors.is_generic
    interlink_condorce_plugi.Slurm.Flavors.memory_flag resolve_slurm_flavor
    update_with_resource_requests interlink_condorce_plugi.Slurm.Script.int_flag
    interlink_condorce_plugi.Slurm.Script.list_flags
    interlink_condorce_plugi.Slurm.Script.slurm_script
    interlink_condorce_plugi.Slurm.Script.text_flag
    interlink_condorce_plugi.Slurm.Submission.after_mkdir
    interlink_condorce_plugi.Slurm.Submission.make_call slash
    interlink_condorce_plugi.Utils.PodResources.ceil
    interlink_condorce_plugi.Utils.PodResources.floor
    interlink_condorce_plugi.Utils.PodResources.gpus_of
    interlink_condorce_plugi.Utils.PodResources.larger_of
    interlink_condorce_plugi.Utils.PodResources.or_default
    interlink_condorce_plugi.Utils.PodResources.quantity_in
    interlink_condorce_plugi.Utils.PodResources.sum
returned name stdout = refl

created :
    (create_pod parse accepting config job (codes "true") slurm_pod []).0 ≡ ok (some (codes "42"))
unfolding job_id_of codes
created = returned job (codes "Submitted batch job 42\n")

create_pod-Submitted_example :
    Submitted parse accepting config job
      (codes "true")
      slurm_pod
      (some (codes "42"))
      (create_pod parse accepting config job (codes "true") slurm_pod []).1
create_pod-Submitted_example =
    create_pod-Submitted parse accepting config job (codes "true") slurm_pod (some (codes "42"))
      created

abbrev provider : Provider
provider = init (codes "interlink") (codes "p") build_config no_resources true none true

abbrev silent : Host
silent = host (codes "queued")

-- the options of the job
abbrev given : SlurmOptions
given = record (override long options) { cpu = some 3; memory = some (codes "4M") }

carries : Carries silent config (last_token job) given (codes "queued")
carries = record { makes = λ d e. cc; writes = (refl, refl); chmods = refl; prints = refl }

nothing_announced : contains_text (codes "queued") submitted ≡ false
unfolding contains_text codes
nothing_announced = refl

given_options : job_options parse slurm_pod options ≡ ok given
unfolding job_options interlink_condorce_plugi.Slurm.Flavors.first_match
    interlink_condorce_plugi.Slurm.Flavors.matches interlink_condorce_plugi.Slurm.Flavors.conditions
    interlink_condorce_plugi.Slurm.Flavors.time_condition
    interlink_condorce_plugi.Slurm.Flavors.within compute_pod_resource
    interlink_condorce_plugi.Slurm.Flavors.get_max_resource
    interlink_condorce_plugi.Slurm.Flavors.generic_keys interlink_condorce_plugi.Prelude.all value
    interlink_condorce_plugi.Slurm.Flavors.given override
    interlink_condorce_plugi.Slurm.Flavors.memory_flag
given_options = refl

given_flags :
    (flags : List Text) × (sbatch_flags
        (keywords parse silent config (last_token job) (codes "true") slurm_pod)
        given
      ≡ ok flags)
unfolding sbatch_flags override
given_flags = (_, refl)

create_pod_callback-no_id_example :
    ((create_pod parse silent config (last_token job) (codes "true") slurm_pod []).1
      ≡ submission parse silent config
          (last_token job)
          (codes "true")
          slurm_pod
          given
          given_flags.0)
    × (create_pod_callback
          (λ name sh q. (create_pod parse silent config name sh q []).0)
          7
          job
          (ok (codes "true", slurm_pod))
          provider
        ≡ (register (last_token job) (mark 7 (last_token job) provider), err attribute_error))
create_pod_callback-no_id_example =
    create_pod_callback-no_id parse silent config (codes "true") slurm_pod given given_flags.0
      (codes "queued") 7 job provider given_options given_flags.1 carries nothing_announced

-- two jobs, of which the first one cannot be cancelled
abbrev commands : Commands
commands = record { squeue = λ command. printed (codes "41\n42\n"); scancel = λ command. exit_code }

delete_pod-cleans_example :
    (done rest : List Text) × (listed (commands.squeue (squeue_command job)) ≡ done ++ rest)
    × StopsAt commands done rest
    × (delete_pod commands config job [] ≡ (
      ok tt,
      (((run (squeue_command job) ∷ []) ++ cancellations commands done)
            ++ remove_tree (slash config.slurm.sandbox job) ∷ [])
          ++ remove_tree (slash config.volumes.scratch_area job) ∷ [],
    ))
delete_pod-cleans_example = delete_pod-cleans commands config job [] (λ e. cc) (λ id e. cc)

-- the file of the logs is missing once, then empty, then it has contents
unfoldable reads : ℕ → Read
reads zero = missing (codes "no such file")
reads (suc zero) = contents []
reads (suc (suc n)) = contents (codes "log")

written : (j : ℕ) → 2 ≤ j → reads j ≢ contents []
unfolding reads codes
written zero h = absurd (omega arith)
written (suc zero) h = absurd (omega arith)
written (suc (suc j)) h = cc

get_pod_status_and_logs-returns_example :
    (s : JobStatus) × (get_pod_status_and_logs reads 8 (some (codes "COMPLETED")) ≡ some s)
get_pod_status_and_logs-returns_example =
    get_pod_status_and_logs-returns reads 2 (some (codes "COMPLETED")) written

completed : verdict (some (codes "COMPLETED")) ≡ read_logs
unfolding verdict codes
completed = refl

get_pod_status_and_logs-hangs_example :
    get_pod_status_and_logs (λ j. contents []) 1000 (some (codes "COMPLETED")) ≡ none
get_pod_status_and_logs-hangs_example =
    get_pod_status_and_logs-hangs (λ j. contents []) 1000 (some (codes "COMPLETED")) completed
      (λ j. refl)

get_pod_status_and_logs-attempts_example :
    get_pod_status_and_logs (λ j. missing (codes "x")) 6 (some (codes "COMPLETED"))
    ≡ some (job_status failed [] (some (codes "x")))
get_pod_status_and_logs-attempts_example =
    get_pod_status_and_logs-attempts (λ j. missing (codes "x")) 5 (some (codes "COMPLETED"))
      completed (λ j lt. (codes "x", refl)) refl

-- nothing has been asked yet; sacct has two rows of the job
abbrev squeue : Squeue
squeue = record { cached_squeue = []; cached_squeue_time = never }

abbrev rows : List (Text × Text)
rows = (job, codes "R") ∷ (job, codes "C") ∷ []

missed : is_miss 100 job squeue ≡ true
unfolding is_miss
missed = refl

no_bar : HasNone b'|' job
unfolding codes
no_bar = (omega arith, (omega arith, (omega arith, (omega arith, (omega arith, tt)))))

no_newline : HasNone b'\n' job
unfolding codes
no_newline = (omega arith, (omega arith, (omega arith, (omega arith, (omega arith, tt)))))

clean_rows : All IsRow rows
unfolding codes
clean_rows = (
  (no_bar, no_newline, (omega arith, tt), (omega arith, tt)),
  ((no_bar, no_newline, (omega arith, tt), (omega arith, tt)), tt),
)

retrieve_job_status-table_example :
    retrieve_job_status (λ i s. s) 100 200 (ok (print_table rows)) job squeue ≡ (
      ok (or_else (last_row rows job) none),
      record { cached_squeue = merge [] rows; cached_squeue_time = at 200 },
    )
unfolding get
retrieve_job_status-table_example =
    retrieve_job_status-table (λ i s. s) 100 200 rows job squeue missed clean_rows
