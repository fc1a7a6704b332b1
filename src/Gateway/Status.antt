-- ===== src/Gateway/Status.antt =====
-- `get_pod_status` of natsprovider/NatsGateway.py: the cached statuses, the attempts to get the
-- status of the job from its provider, and the statuses of the containers.
use interlink_condorce_plugi.Prelude.{
  ℕ, zero, suc, Text, codes, List, [], ◌∷◌, ◌++◌, Option, none, some, Bool, true, false, ◌||◌, map,
  all, nat_beq, Result, ok, err, http, attribute_error, type_error, index_error, unbound_local,
  value_error, nat_eq, list_eq, if◌then◌else◌,
}
use interlink_condorce_plugi.Prelude.Int.{ℤ, is_zero}
use interlink_condorce_plugi.Utils.Responses.{
  Data, bytes, names, status, NatsResponse, JobStatus, unknown,
}
use interlink_condorce_plugi.Interlink.{PodRequest, ContainerStatus, ContainerStates, terminated}
use interlink_condorce_plugi.Provider.Resync.{Outcome, response, timeout, no_responders}
use interlink_condorce_plugi.Apptainer.Logs.{Builder, Container}
use interlink_condorce_plugi.Gateway.{Statuses, nats_connection}

-- The condition of another attempt. Its first part calls `get` on the body of the response, which
-- only a dict has.
unfoldable pub is_retriable : NatsResponse → Result Bool
is_retriable r = elim r.data_ [
  | bytes t ↦ err attribute_error
  | names ns ↦ err attribute_error
  | status s ↦ ok (
      (elim s.phase [ unknown ↦ true | _ ↦ false ])
      || nat_beq r.status_code 404
      || nat_beq r.status_code 500)
]

-- the end of the loop: nobody answers for the job, or there is a last response
pub data Polled : Type 0 where
  gone : Polled
  got : NatsResponse → Polled

unfoldable pub after_response : Result Bool → NatsResponse → (more : Result Polled) → Result Polled
after_response (err e) r more = err e
after_response (ok true) r more = more
after_response (ok false) r more = ok (got r)

unfoldable pub after_outcome : Outcome → (more : NatsResponse → Result Polled) → Result Polled
unfolding after_response is_retriable nats_connection
after_outcome (response r) more = after_response (is_retriable r) r (more r)
after_outcome timeout more = err (http 504 (codes "Compute backend timeout"))
after_outcome no_responders more = ok gone

-- `for i_attempt in range(…)`, with the attempts left and the last response so far. After the loop
-- `status_response` is that response, or unbound if there was no attempt.
unfoldable pub poll : ℕ → (ℕ → Outcome) → ℕ → Option NatsResponse → Result Polled
unfolding after_outcome
poll zero send i none = err unbound_local
poll zero send i (some r) = ok (got r)
poll (suc left) send i last = after_outcome (send i) (λ r. poll left send (suc i) (some r))

-- `JobStatus(**status_response.data)` of a response that is no error
unfoldable pub job_status : Data → Result JobStatus
job_status (status s) = ok s
job_status d = err type_error

abbrev pub same_for_all : ContainerStates → List Text → List ContainerStatus
same_for_all state = map λ n. record { name = n; state = state }

abbrev pub or_empty {ℓ} : {A : Type ℓ} → Option (List A) → List A
or_empty none = []
or_empty (some l) = l

-- the statuses of a pod whose containers are all in one state, and its init containers in another
unfoldable pub uniform : ContainerStates → ContainerStates → PodRequest → Statuses
uniform init_state state pod = record {
  containers = same_for_all state pod.containers;
  init_containers = same_for_all init_state (or_empty pod.init_containers);
}

unfoldable pub of_code : ℤ → ContainerStates
unfolding is_zero
of_code n = terminated n (if is_zero n then codes "Completed" else codes "Failed")

-- `builder.containers[i].return_code` for the i-th container of the pod
unfoldable pub of_codes : List Text → List Container → Result (List ContainerStatus)
unfolding of_code
of_codes [] cs = ok []
of_codes (n ∷ ns) [] = err index_error
of_codes (n ∷ ns) (c ∷ cs) = elim c.return_code [
  | none ↦ err value_error
  | some code ↦ elim (of_codes ns cs) [
    | err e ↦ err e
    | ok rest ↦ ok (record { name = n; state = of_code code } ∷ rest)
  ]
]

unfoldable pub succeeded_code : Container → Bool
unfolding is_zero
succeeded_code c = elim c.return_code [ none ↦ false | some n ↦ is_zero n ]

-- the phase that the exit codes give
unfoldable pub phase_of_codes : Builder → Bool
unfolding succeeded_code all
phase_of_codes b = all succeeded_code (b.init_containers ++ b.containers)
