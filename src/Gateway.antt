-- ===== src/Gateway.antt =====
-- The state of `NatsGateway` (natsprovider/NatsGateway.py) and its callbacks, `create_job` and
-- `delete_pod`. The children model the status and the logs of a pod.
-- Redis is a record of its hashes, an optional one as in the source. What becomes of a request that
-- is sent over NATS is an argument. Of the metrics only the counter of pod transitions is kept.
pub mod Status
pub mod PodStatus
pub mod Jobs
pub mod Transitions
pub mod Reports
pub mod Caching
pub mod Polling
pub mod Listing
pub mod Restart
pub mod PodLogs
pub mod LastLines
use interlink_condorce_plugi.Prelude.{
  ℕ, Text, codes, List, [], ◌∷◌, ◌++◌, Option, none, some, Bool, true, false, not, keep, map,
  Result, Error, ok, err, http, type_error, key_error, get_or, nat_eq, list_eq, ◌==◌, if◌then◌else◌,
}
use interlink_condorce_plugi.Prelude.Dicts.{Dict, get, put, remove, keys, keep_items}
use interlink_condorce_plugi.Utils.Responses.{Data, bytes, names, NatsResponse, raise_for_status}
use interlink_condorce_plugi.Utils.JobId.{pod_request, get_readable_jobid}
use interlink_condorce_plugi.BuildConfig.{BuildConfig, BuildConfigJson, model_dump_json, from_json}
use interlink_condorce_plugi.Interlink.{Toleration, PodRequest, ContainerStatus}
use interlink_condorce_plugi.Subjects.{subject, create_subject, last_token}
use interlink_condorce_plugi.Provider.Resync.{Outcome, response, timeout, no_responders}
use interlink_condorce_plugi.Action.{Action, pure, lift, gets, modify, ◌>>=◌, ◌>>◌}

-- the values of the hash `pod:status`
pub data PodState : Type 0 where
  creating created pending running succeeded failed lost cleared deleting deleted : PodState

-- the first label of the counter `pod_transitions`
pub data Transition : Type 0 where
  start succeeded failed lost cleared : Transition

-- an entry of `pod:container_statuses`
pub record Statuses : Type 0 where
  pub containers : List ContainerStatus
  pub init_containers : List ContainerStatus

pub record Redis : Type 0 where
  pub build_configs : Dict Text BuildConfigJson
  pub pod_pool : Dict Text Text
  pub pod_status : Dict Text PodState
  pub container_statuses : Dict Text Statuses

pub record Gateway : Type 0 where
  pub nats_subject : Text
  pub redis : Option Redis
  pub build_configs : Dict Text BuildConfig
  pub transitions : List (Transition × Text)

-- the configurations in Redis, each one read
unfoldable pub read_configs : Dict Text BuildConfigJson → Dict Text BuildConfig
unfolding from_json
read_configs [] = []
read_configs ((pool, json) ∷ d) = (pool, from_json json) ∷ read_configs d

-- `NatsGateway.__init__`: the configurations are read back from Redis.
unfoldable pub init : Text → Option Redis → Gateway
unfolding read_configs
init nats_subject none = record {
  nats_subject = nats_subject;
  redis = none;
  build_configs = [];
  transitions = [];
}
init nats_subject (some r) = record {
  nats_subject = nats_subject;
  redis = some r;
  build_configs = read_configs r.build_configs;
  transitions = [];
}

-- `if self._redis: …`
unfoldable pub on_redis : (Redis → Redis) → Gateway → Gateway
on_redis f g = elim g.redis [ none ↦ g | some r ↦ record g { redis = some (f r) } ]

-- the hashes of Redis, less absent ones
abbrev pub from_redis {ℓ} : {A : Type ℓ} → (Redis → A) → A → Gateway → A
from_redis f d g = elim g.redis [ none ↦ d | some r ↦ f r ]

unfoldable pub hset_pool : Text → Text → Redis → Redis
hset_pool job pool r = record r { pod_pool = put r.pod_pool job pool }

unfoldable pub hset_status : Text → PodState → Redis → Redis
hset_status job s r = record r { pod_status = put r.pod_status job s }

-- `config_callback`: `config` is the message, or the exception that validating it raises.
unfoldable pub config_callback : Text → Result BuildConfig → Action Gateway (Unit {0})
unfolding on_redis model_dump_json
config_callback subject_ (err e) g = (err e, g)
config_callback subject_ (ok config) g =
    let pool = last_token subject_ in
    (
      ok tt,
      on_redis (λ r. record r { build_configs = put r.build_configs pool (model_dump_json config) })
          (record g { build_configs = put g.build_configs pool config }),
    )

-- `resync_callback`: the answer, and the state as it was
unfoldable pub resync_callback : Text → Gateway → NatsResponse
resync_callback subject_ g =
    let pool = last_token subject_ in
    record {
      status_code = 200;
      data_ =
          names
            (from_redis (λ r. keys (keep_items (λ job cached. cached == pool) r.pod_pool)) [] g);
    }

-- the errors that `nats_connection` makes of those of a request
unfoldable pub nats_connection : Outcome → Result NatsResponse
nats_connection (response r) = ok r
nats_connection timeout = err (http 504 (codes "Compute backend timeout"))
nats_connection no_responders =
    err (http 502 (codes "No compute backend is configured to manage the request"))

unfoldable pub pools_of : List Toleration → List Text
unfolding keep
pools_of ts = map (λ t. t.value) (keep (λ t. t.key == codes "pool.vk.io") ts)

unfoldable pub single : List Text → Result Text
single [] = err (http 400 (codes "Toleration pool.vk.io=<pool>:NoSchedule is mandatory"))
single (pool ∷ []) = ok pool
single (pool ∷ p ∷ ps) = err (http 400 (codes "Multi-pool submission is not supported, yet."))

-- `retrieve_pool_from_tolerations`; a pod without tolerations has None there, which is not iterable.
unfoldable pub retrieve_pool_from_tolerations : Option (List Toleration) → Result Text
unfolding pools_of single
retrieve_pool_from_tolerations none = err type_error
retrieve_pool_from_tolerations (some ts) = single (pools_of ts)

abbrev pub jobid : PodRequest → Result Text
jobid pod = get_readable_jobid (pod_request pod.metadata)

-- the writes of `create_job` before the script is built, only with Redis
unfoldable pub note_creating : PodRequest → Text → Action Gateway (Unit {0})
unfolding on_redis hset_pool hset_status
note_creating pod pool g = elim g.redis [
  | none ↦ (ok tt, g)
  | some r ↦ elim (jobid pod) [
    | err e ↦ (err e, g)
    | ok id ↦ (ok tt, on_redis (λ q. hset_status id creating (hset_pool id pool q)) g)
  ]
]

-- `create_job`: `build` makes the job script (from_kubernetes and its `dump`), `default` is
-- `BuildConfig()`, and `send` is what becomes of the request at a subject.
module _ (print : Data → Text) (build : PodRequest → BuildConfig → Result Text)
    (default : BuildConfig) (send : Text → Outcome) where
  -- the request, and what follows it
  unfoldable pub submit : PodRequest → Text → Action Gateway Text
  unfolding ◌>>=◌ on_redis hset_status
  submit pod pool = do
    config ← gets (λ g. get_or (get g.build_configs pool) default)
    job_sh ← lift (build pod config)
    id ← lift (jobid pod)
    base ← gets (λ g. g.nats_subject)
    r ← lift (nats_connection (send (create_subject base pool id)))
    lift (raise_for_status print r)
    modify (on_redis (hset_status id created))
    pure (print r.data_)

  unfoldable pub create_job : PodRequest → Action Gateway Text
  unfolding ◌>>=◌ note_creating
  create_job pod = do
    pool ← lift (retrieve_pool_from_tolerations pod.tolerations)
    note_creating pod pool
    submit pod pool

-- the entries of a deleted job
unfoldable pub forget : Text → Redis → Redis
unfolding hset_status
forget id r =
    let r' = hset_status id deleted r in
    record r' {
      pod_pool = remove r'.pod_pool id;
      container_statuses = remove r'.container_statuses id;
    }

unfoldable pub delete_pod :
    (Data → Text) → (Text → Outcome) → PodRequest → Action Gateway (Unit {0})
unfolding ◌>>=◌ on_redis hset_status forget
delete_pod print send pod = do
  id ← lift (jobid pod)
  modify (on_redis (hset_status id deleting))
  base ← gets (λ g. g.nats_subject)
  r ← lift (nats_connection (send (subject base (codes "delete") id)))
  lift (raise_for_status print r)
  modify (on_redis (forget id))
