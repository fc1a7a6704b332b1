-- ===== src/Examples/OfLogs.antt =====
-- The theorems on `get_pod_logs` of natsprovider/NatsGateway.py, applied to a log of three lines.
use interlink_condorce_plugi.Gateway.PodStatus.{is_terminal}
use interlink_condorce_plugi.Prelude.Numbers.{digits, value}
use interlink_condorce_plugi.Prelude.{
  ◌≡◌, refl, Text, codes, List, [], ◌∷◌, none, some, true, ok, arith, nat_eq, list_eq, list_beq,
}
use interlink_condorce_plugi.Prelude.Int.{pos}
use interlink_condorce_plugi.Utils.Responses.{status, succeeded}
use interlink_condorce_plugi.Utils.JobId.{get_readable_jobid, log_request, make_uid_numeric}
use interlink_condorce_plugi.Interlink.{LogRequest}
use interlink_condorce_plugi.Provider.Resync.{Outcome, response}
use interlink_condorce_plugi.Gateway.PodLogs.{is_log_of, get_pod_logs}
use interlink_condorce_plugi.Gateway.LastLines.{IsTail, get_pod_logs_container}
use interlink_condorce_plugi.Examples.{gateway, job, print}

abbrev log : Text
log = codes "one\ntwo\nthree"

abbrev request : LogRequest
request = record {
  namespace = codes "b";
  pod_uid = codes "7";
  pod_name = codes "a";
  container_name = codes "main";
  tail = some (pos 1);
}

abbrev members : Text → List (Text × Text)
members t = (codes "run-other.out", codes "x") ∷ (codes "run-main.out", log) ∷ []

abbrev has_ended : Text → Outcome
has_ended s = response (record {
  status_code = 200;
  data_ = status (record { phase = succeeded; logs_tarball = codes "t"; reason = none });
})

request_named : get_readable_jobid (log_request (codes "a") (codes "b") (codes "7")) ≡ ok job
unfolding get_readable_jobid make_uid_numeric codes digits value
request_named = refl

own_member : is_log_of (codes "main") (codes "run-main.out") ≡ true
unfolding is_log_of list_beq codes
own_member = refl

get_pod_logs_container_example :
    (out : Text) × (get_pod_logs members print has_ended request gateway ≡ ok out)
    × IsTail (some (pos 1)) log out
unfolding is_terminal
get_pod_logs_container_example =
    get_pod_logs_container members print has_ended request gateway job 200
      (record { phase = succeeded; logs_tarball = codes "t"; reason = none }) (codes "run-main.out")
      log ((codes "run-other.out", codes "x") ∷ []) [] request_named refl (omega arith, omega arith)
      refl refl own_member tt
