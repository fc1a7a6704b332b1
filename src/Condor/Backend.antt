-- ===== src/Condor/Backend.antt =====
-- natsprovider/condor/CondorProvider.py: HTCondor as the backend of a provider.
use interlink_condorce_plugi.Prelude.{
  ℕ, Text, codes, List, [], ◌∷◌, Option, none, some, Result, Error, ok, err, ◌>>=◌,
  htcondor_exception, key_error, attribute_error, nat_eq, list_eq, list_beq,
}
use interlink_condorce_plugi.Prelude.Dicts.{Dict, get}
use interlink_condorce_plugi.Utils.Responses.{JobStatus, Phase, pending, succeeded, unknown}
use interlink_condorce_plugi.Utils.PodResources.{Container, compute_pod_resource}
use interlink_condorce_plugi.Condor.{CondorJobStatus, held, idle, completed}
use interlink_condorce_plugi.Condor.Submit.{CondorSubmit}
use interlink_condorce_plugi.Condor.Output.{Retrieved, text, stream}

-- the options of `create_pod`, with the defaults of the class
unfoldable pub condor_options :
    (parse_quantity : Text → Result ℕ) → (job_name : Text) → List Container → Result CondorSubmit
unfolding compute_pod_resource codes
condor_options parse_quantity job_name containers = do
  cpus ← compute_pod_resource parse_quantity containers (codes "cpu") (codes "1")
  memory ← compute_pod_resource parse_quantity containers (codes "memory") (codes "1")
  ok (record {
    job_name = some job_name;
    executable = some (codes "/bin/bash");
    log = codes "output.log";
    stdout = codes "stdout.txt";
    stderr = codes "stderr.txt";
    when_to_transfer_output = codes "ON_EXIT";
    should_transfer_files = codes "Yes";
    transfer_output_files = codes "logs" ∷ [];
    request_cpus = some cpus;
    request_memory = some memory;
  })

-- `create_pod`: `submit` is the method of the client
unfoldable pub create_pod :
    {A : Type 0} (parse_quantity : Text → Result ℕ) (submit : Text → CondorSubmit → Result A)
    → (job_name job_sh : Text) → List Container
    → Result Text
unfolding condor_options
create_pod parse_quantity submit job_name job_sh containers = do
  options ← condor_options parse_quantity job_name containers
  id ← submit job_sh options
  ok job_name

abbrev pub with_phase : Phase → Text → Option Text → JobStatus
with_phase phase logs reason = record { phase = phase; logs_tarball = logs; reason = reason }

-- `output_struct['logs'].read()`
unfoldable pub logs_of : Dict Text Retrieved → Result Text
unfolding get list_beq codes
logs_of files = elim (get files (codes "logs")) [
  | none ↦ err key_error
  | some (text t) ↦ err attribute_error
  | some (stream t) ↦ ok t
]

-- the branches by the status; `output` is what `retrieve_by_name` returns
unfoldable pub report : Result (Dict Text Retrieved) → CondorJobStatus → Result JobStatus
unfolding logs_of codes
report output held = ok (with_phase pending [] (some (codes "Held")))
report output idle = ok (with_phase pending [] (some (codes "Pending")))
report output CondorJobStatus.running = ok (with_phase Phase.running [] none)
report output completed = do
  files ← output
  logs ← logs_of files
  ok (with_phase succeeded logs none)
report output _ = ok (with_phase unknown [] none)

-- `except HTCondorException`, around the query of the status only
unfoldable pub unless_missing : Error → Result JobStatus
unless_missing htcondor_exception = ok (with_phase unknown [] none)
unless_missing e = err e

unfoldable pub get_pod_status_and_logs :
    (status : Result CondorJobStatus) → (output : Result (Dict Text Retrieved)) → Result JobStatus
unfolding report unless_missing
get_pod_status_and_logs (err e) output = unless_missing e
get_pod_status_and_logs (ok s) output = report output s
