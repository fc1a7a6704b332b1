-- ===== src/Examples/OfPodman.antt =====
-- The theorem on natsprovider/podmanprovider, applied to a provider that is subscribed for the job.
use interlink_condorce_plugi.Prelude.{◌≡◌, codes, [], ◌∷◌, none, some, true, All, HasNone, arith}
use interlink_condorce_plugi.Prelude.Dicts.{keys}
use interlink_condorce_plugi.Provider.{
  Provider, init, subscribed_jobs, get_pod_status_and_logs_callback,
}
use interlink_condorce_plugi.Utils.Responses.{unknown}
use interlink_condorce_plugi.Podman.{not_found, with_phase, get_pod_status_and_logs}
use interlink_condorce_plugi.Podman.Missing.{get_pod_status_and_logs-not_found}
use interlink_condorce_plugi.Examples.{build_config, no_resources}

-- the subject for the status of the job `j`, of a provider whose subjects begin with `i`
abbrev provider : Provider
provider = record (init (codes "i") (codes "p") build_config no_resources true none true) {
  subscriptions = (codes "i.status.j", get_pod_status_and_logs_callback) ∷ [];
}

no_dot : HasNone b'.' (codes "j")
unfolding codes
no_dot = (omega arith, tt)

no_colon : All (HasNone b':') (keys provider.subscriptions)
unfolding keys codes
no_colon = (
  (
    omega arith,
    (
      omega arith,
      (
        omega arith,
        (
          omega arith,
          (
            omega arith,
            (omega arith, (omega arith, (omega arith, (omega arith, (omega arith, tt))))),
          ),
        ),
      ),
    ),
  ),
  tt,
)

get_pod_status_and_logs-not_found_example :
    get_pod_status_and_logs (subscribed_jobs provider) not_found none (codes "j")
    ≡ some (with_phase unknown [])
get_pod_status_and_logs-not_found_example =
    get_pod_status_and_logs-not_found provider (codes "j") none no_dot no_colon
