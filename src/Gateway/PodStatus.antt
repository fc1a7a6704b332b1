-- ===== src/Gateway/PodStatus.antt =====
-- `get_pod_status` of natsprovider/NatsGateway.py: the record of a pod's state in Redis, the
-- statuses of its containers in each phase, and the method as a whole.
use interlink_condorce_plugi.Prelude.{
  ℕ, length, nat_beq, Text, codes, List, [], ◌∷◌, Option, none, some, Bool, true, false, get_or,
  Result, ok, err, if◌then◌else◌, nat_eq, list_eq,
}
use interlink_condorce_plugi.Prelude.Dicts.{get, put}
use interlink_condorce_plugi.Prelude.Int.{pos}
use interlink_condorce_plugi.Utils.Responses.{
  Data, raise_for_status, JobStatus, Phase, pending, running, succeeded, failed, unknown,
}
use interlink_condorce_plugi.Utils.JobId.{item}
use interlink_condorce_plugi.Interlink
use interlink_condorce_plugi.Interlink.{PodRequest, PodStatus, ContainerStates, terminated, waiting}
use interlink_condorce_plugi.Subjects.{subject}
use interlink_condorce_plugi.Provider.Resync.{Outcome}
use interlink_condorce_plugi.Action.{Action, pure, lift, gets, modify, ◌>>=◌, ◌>>◌}
use interlink_condorce_plugi.Apptainer.Logs.{Builder, process_logs}
use interlink_condorce_plugi.Gateway.{
  Gateway, Redis, Statuses, PodState, Transition, on_redis, hset_status, jobid,
  retrieve_pool_from_tolerations,
}
use interlink_condorce_plugi.Gateway.Status.{
  Polled, gone, got, poll, job_status, uniform, of_codes, phase_of_codes, or_empty,
}

-- `str(self._redis.hget('pod:status', job) or b'creating', 'utf-8')`
unfoldable pub current_status : Text → Redis → PodState
current_status id r = get_or (get r.pod_status id) PodState.creating

-- `in ['pending', 'creating', 'created']`
unfoldable pub before_running : PodState → Bool
before_running PodState.pending = true
before_running PodState.creating = true
before_running PodState.created = true
before_running _ = false

-- `in ['pending', 'creating', 'created', 'running']`
unfoldable pub before_end : PodState → Bool
unfolding before_running
before_end PodState.running = true
before_end s = before_running s

-- `metrics.counters['pod_transitions'].labels(transition, pool).inc()`
unfoldable pub count : Transition → Text → Gateway → Gateway
count t pool g = record g { transitions = (t, pool) ∷ g.transitions }

unfoldable pub note_running : Text → Text → Gateway → Gateway
unfolding current_status before_running count on_redis hset_status
note_running id pool g = elim g.redis [
  | none ↦ g
  | some r ↦
      on_redis (hset_status id PodState.running)
        (if before_running (current_status id r) then count Transition.start pool g else g)
]

unfoldable pub lose : PodState → Text → Text → Gateway → Gateway
unfolding count on_redis hset_status before_end
lose PodState.succeeded id pool g =
    on_redis (hset_status id PodState.cleared) (count Transition.cleared pool g)
lose PodState.failed id pool g =
    on_redis (hset_status id PodState.cleared) (count Transition.cleared pool g)
lose s id pool g =
    if before_end s
    then on_redis (hset_status id PodState.lost) (count Transition.lost pool g)
    else g

-- a job that has ended without an output
unfoldable pub note_lost : Text → Text → Gateway → Gateway
unfolding current_status lose
note_lost id pool g = elim g.redis [ none ↦ g | some r ↦ lose (current_status id r) id pool g ]

-- a job that has ended with an output, whose exit codes say whether it succeeded
unfoldable pub note_end : Bool → Text → Text → Gateway → Gateway
unfolding current_status before_end count on_redis hset_status
note_end good id pool g = elim g.redis [
  | none ↦ g
  | some r ↦ on_redis (hset_status id (if good then PodState.succeeded else PodState.failed)) (
      if before_end (current_status id r)
      then count (if good then Transition.succeeded else Transition.failed) pool g
      else g)
]

unfoldable pub failure : (code : ℕ) → (reason : Text) → PodRequest → Statuses
unfolding uniform
failure code reason = uniform (terminated (pos code) reason) (terminated (pos code) reason)

-- `untar` gives the regular members of a tarball, and `builder` is `from_kubernetes` with fake
-- volumes.
module _ (untar : Text → List (Text × Text)) (builder : PodRequest → Result Builder) where
  unfoldable pub ended : PodRequest → Text → Text → Text → Action Gateway Statuses
  unfolding ◌>>=◌ process_logs note_end phase_of_codes of_codes
  ended pod id pool logs = do
    b ← lift (builder pod)
    b' ← lift (process_logs (untar logs) b)
    modify (note_end (phase_of_codes b') id pool)
    is ← lift (of_codes (or_empty pod.init_containers) b'.init_containers)
    cs ← lift (of_codes pod.containers b'.containers)
    pure (record { containers = cs; init_containers = is })

  -- the branch of a job that has ended
  unfoldable pub at_end : PodRequest → Text → Text → Text → Action Gateway Statuses
  unfolding ◌>>=◌ failure note_lost ended
  at_end pod id pool [] = do modify (note_lost id pool); pure (failure 502 (codes "LostOutput") pod)
  at_end pod id pool (c ∷ t) = ended pod id pool (c ∷ t)

  -- the branches on the phase
  unfoldable pub statuses_of :
      PodRequest → Text → Text → JobStatus → Phase → Action Gateway Statuses
  unfolding ◌>>=◌ uniform failure note_running at_end
  statuses_of pod id pool s pending = do
    modify (on_redis (hset_status id PodState.pending))
    let state = waiting (get_or s.reason (codes "Pending")) (codes "Pending")
    pure (uniform state state pod)
  statuses_of pod id pool s running = do
    modify (note_running id pool)
    pure (uniform (terminated (pos 0) (codes "Completed")) Interlink.running pod)
  statuses_of pod id pool s unknown = pure (failure 404 (codes "Failed") pod)
  statuses_of pod id pool s _ = at_end pod id pool s.logs_tarball

-- `interlink.PodStatus(…)` from the pod's metadata
unfoldable pub pod_status : PodRequest → Statuses → Result PodStatus
unfolding item
pod_status pod st = elim (item pod.metadata (codes "name")) [
  | err e ↦ err e
  | ok name ↦ elim (item pod.metadata (codes "uid")) [
    | err e ↦ err e
    | ok uid ↦ elim (item pod.metadata (codes "namespace")) [
      | err e ↦ err e
      | ok namespace ↦ ok (record {
        name = name;
        uid = uid;
        namespace = namespace;
        containers = st.containers;
        init_containers = st.init_containers;
      })
    ]
  ]
]

unfoldable pub is_terminal : Phase → Bool
is_terminal succeeded = true
is_terminal failed = true
is_terminal _ = false

unfoldable pub hset_statuses : Text → Statuses → Redis → Redis
hset_statuses id st r = record r { container_statuses = put r.container_statuses id st }

-- the statuses, cached if the job has ended
unfoldable pub conclude_report :
    PodRequest → Text → Phase → Statuses → Action Gateway (Option PodStatus)
unfolding ◌>>=◌ on_redis hset_statuses is_terminal pod_status
conclude_report pod id phase st = do
  modify (λ g. if is_terminal phase then on_redis (hset_statuses id st) g else g)
  status ← lift (pod_status pod st)
  pure (some status)

-- the end of the method: nothing to report, or the statuses
unfoldable pub finish : PodRequest → Text → Phase → Statuses → Action Gateway (Option PodStatus)
unfolding conclude_report
finish pod id phase st g =
    if nat_beq (length st.containers) 0 then (ok none, g) else conclude_report pod id phase st g

-- the statuses that Redis has for a job
unfoldable pub cached : Text → Gateway → Option Statuses
cached id g = elim g.redis [ none ↦ none | some r ↦ get r.container_statuses id ]

module _ (untar : Text → List (Text × Text)) (builder : PodRequest → Result Builder)
    (print : Data → Text) where
  -- what follows the last attempt
  unfoldable pub conclude : PodRequest → Text → Text → Polled → Action Gateway (Option PodStatus)
  unfolding ◌>>=◌ job_status statuses_of finish
  conclude pod id pool gone = pure none
  conclude pod id pool (got r) = do
    lift (raise_for_status print r)
    s ← lift (job_status r.data_)
    st ← statuses_of untar builder pod id pool s s.phase
    finish pod id s.phase st

  -- `attempts` is NUMBER_OF_GETTING_STATUS_ATTEMPTS, and `send i` what becomes of attempt number `i`.
  module _ (attempts : ℕ) (send : ℕ → Text → Outcome) where
    unfoldable pub fetch : PodRequest → Text → Text → Action Gateway (Option PodStatus)
    unfolding ◌>>=◌ poll conclude
    fetch pod id pool = do
      base ← gets (λ g. g.nats_subject)
      polled ← lift (poll attempts (λ i. send i (subject base (codes "status") id)) 0 none)
      conclude pod id pool polled

    -- the answer from the cache, or from the provider
    unfoldable pub answer :
        PodRequest → Text → Text → Option Statuses → Action Gateway (Option PodStatus)
    unfolding ◌>>=◌ fetch pod_status
    answer pod id pool none = fetch pod id pool
    answer pod id pool (some st) = do status ← lift (pod_status pod st); pure (some status)

    unfoldable pub get_pod_status : PodRequest → Action Gateway (Option PodStatus)
    unfolding ◌>>=◌ answer cached
    get_pod_status pod = do
      id ← lift (jobid pod)
      pool ← lift (retrieve_pool_from_tolerations pod.tolerations)
      found ← gets (cached id)
      answer pod id pool found
