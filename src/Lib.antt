-- ===== src/Lib.antt =====
-- interLink NATS plugin: the gateway and the providers that run Kubernetes pods on remote backends.
--
-- A pod reaches the gateway (natsprovider/NatsGateway.py) through a REST service. The gateway names
-- the pod's job, keeps its state in Redis, turns it into a script and sends requests over NATS, on
-- subjects that end in the pool or the job, to a provider of the pool
-- (natsprovider/BaseNatsProvider.py). The provider submits the job to its backend, answers for its
-- status and its logs, and publishes the quotas and the configuration of the pool. A provider that
-- restarts asks the gateway for the jobs of its pool.
--
-- The modules and the code:
--   - Prelude: shared types, tests on numbers, texts as lists of code points, dicts as
--     association lists in the order of insertion, and Python's exceptions as values.
--   - Utils: natsprovider/utils.py. Responses is NatsResponse and JobStatus, JobId is
--     make_uid_numeric and get_readable_jobid, Resources, TokenManager, and Embed for
--     embed_binary_file and embed_ascii_file. PodResources is compute_pod_resource.
--   - BuildConfig: natsprovider/apptainer_cmd_builder/BuildConfig.py, the options as records, and what
--     their JSON keeps.
--   - SubmissionRecord: natsprovider/SubmissionRecord.py.
--   - Subjects: the subjects that the gateway and the provider join and split.
--   - Provider: BaseNatsProvider. Its state is a record; Callbacks, Publishing and Resync model
--     its coroutines, and Events is a provider as a machine that runs through a sequence of
--     events.
--   - Interlink: natsprovider/interlink.py, the requests and the statuses of interLink.
--   - Apptainer: the command builder, natsprovider/apptainer_cmd_builder. Builder is
--     ApptainerCmdBuilder.py, with its template in Builder.Template and its parts and `dump` in
--     Builder.Dump; Logs is its process_logs. Volumes is volumes.py, with the mounts and binds in
--     Volumes.Mounts. Containers is containers.py: the flags and the command line, with the run
--     script and how a shell reads it in Containers.Shell, and the image, the environment and the
--     files in Containers.Image. Network is network.py and `_make_network_config`. FromKubernetes
--     is from_kubernetes.py: Sources and PodVolumes the volumes of a pod, Translation its
--     containers and the job, Cleaning the cleaning of a document; Sharing and Failures prove
--     theorems.
--   - Slurm: natsprovider/slurmprovider/SlurmProvider.py. Sacct is `_retrieve_job_status` with
--     its cache, Status `get_pod_status_and_logs`, Flavors the choice of the options of a job,
--     Script the flags and the script for sbatch, Submission `create_pod` and Delete
--     `delete_pod`, both as the list of the calls that they make. Cache, LogLoop, Tables,
--     Matching, Requests, Submitted, NoId and Cleanup prove theorems.
--   - Condor: natsprovider/condor. Condor itself is the repeated attempts of
--     CondorConfiguration.py, Schedd its queries, Submit CondorSubmit and the submission, Output
--     the files of a job and its removal, Backend CondorProvider.py. Attempts, Locating and
--     Submitted prove theorems.
--   - Podman: natsprovider/podmanprovider/PodmanProvider.py; Missing proves a theorem.
--   - Action and Gateway: a method of the gateway is an Action, a function from the state to a
--     result or an exception and the state that is left. Gateway is the state and create_job,
--     delete_pod and the callbacks; Gateway.Status and Gateway.PodStatus are get_pod_status, and
--     Gateway.PodLogs is get_pod_logs. The other children prove the theorems.
--   - Kueue: NatsFlavor of kueue-nats/docker/controller.py, the pools that the Kueue controller
--     knows, with Pools as a machine that runs through messages and ticks, the flavors and quotas
--     of the pools, and in Queues the cluster queue that MasterQueue makes of its flavors.
--   - Examples: concrete pods, gateways and providers, on which the theorems are applied.
--
-- What is a parameter: what becomes of a NATS request (a response, a timeout or no responder), the
-- methods of a backend where the provider calls them, the script that the gateway sends, the
-- members of a tarball, the printed form of a message's body, and the outcome of refreshing a
-- token. For Slurm: parse_quantity of the Kubernetes client, what sbatch, sacct, squeue, scancel
-- and the file system answer, and what other callbacks do while one sleeps; for HTCondor what its
-- client, the shell and the files answer in each attempt; for Podman the answers of its client. For
-- the command builder: UTF-8 and base64, the random names of volumes, the orders in which Python
-- traverses its sets, the token of the image proxy, and the texts of network.sh and
-- /etc/resolv.conf. Messages are the values that they carry, without their encodings.
--
-- Bounds and fuel: a time is a number of microseconds. The loop over the chunks of a base64 text
-- has the length of the text as fuel, and each round takes a character at least. The loops over
-- attempts count them as the source does. The loop over the log file of a Slurm job may never end,
-- so it has fuel, which is an argument of the model. Numbers are unbounded, as Python's are; the
-- number of a uid is taken modulo 0x7FFFFFFFFFFFFFFF, as the source does.
--
-- Not modelled: the NATS connection itself and the points where coroutines are interleaved, except
-- as sequences of events; metrics other than the counter of pod transitions; the REST service and
-- the command line; the Kubernetes provider, and of the Podman one the making of directories; the
-- branched queues of the Kueue controller; and of the command builder the validators of pydantic
-- and the predefined settings of cvmfs and rclone volumes.
pub mod Prelude
pub mod Utils
pub mod BuildConfig
pub mod Condor
pub mod Podman
pub mod SubmissionRecord
pub mod Subjects
pub mod Provider
pub mod Interlink
pub mod Action
pub mod Apptainer
pub mod Gateway
pub mod Kueue
pub mod Slurm
pub mod Examples
