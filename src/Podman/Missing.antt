-- ===== src/Podman/Missing.antt =====
-- A job without a container, in natsprovider/podmanprovider/PodmanProvider.py.
use interlink_condorce_plugi.Prelude.{
  ◌≡◌, refl, Text, [], Option, some, All, HasNone, nat_eq, list_eq,
}
use interlink_condorce_plugi.Prelude.Dicts.{keys}
use interlink_condorce_plugi.Provider.{Provider, subscribed_jobs}
use interlink_condorce_plugi.Provider.Replies.{subscribed_jobs_none}
use interlink_condorce_plugi.Utils.Responses.{unknown}
use interlink_condorce_plugi.Podman.{not_found, with_phase, get_pod_status_and_logs}

-- If no subject has a colon, a job whose name has no dot and that has no container is reported as
-- unknown, and never as pending, also when the provider is subscribed for it.
pub get_pod_status_and_logs-not_found :
    (p : Provider) (job : Text) (logs : Option Text)
    → HasNone b'.' job
    → All (HasNone b':') (keys p.subscriptions)
    → get_pod_status_and_logs (subscribed_jobs p) not_found logs job ≡ some (with_phase unknown [])
unfolding get_pod_status_and_logs
get_pod_status_and_logs-not_found p job logs h k = rw (subscribed_jobs_none p job h k) refl
