-- ===== src/Provider/Events.antt =====
-- A provider (natsprovider/BaseNatsProvider.py) as a machine that reacts to events.
use interlink_condorce_plugi.Prelude.{
  ℕ, ◌≡◌, refl, Text, codes, List, [], ◌∷◌, Option, none, some, Bool, true, false, Result, ok, err,
  arith, if◌then◌else◌,
}
use interlink_condorce_plugi.Prelude.Dicts.{get, has}
use interlink_condorce_plugi.Utils.Responses.{JobStatus, Data, NatsResponse, raise_for_status}
use interlink_condorce_plugi.BuildConfig.{BuildConfig}
use interlink_condorce_plugi.Subjects.{last_token}
use interlink_condorce_plugi.Provider.{
  Provider, is_due, tick, register, subscribe_all, maybe_stop, shutdown,
}
use interlink_condorce_plugi.Provider.Callbacks.{
  create_pod_callback, delete_pod_callback, get_pod_status_and_logs_callback, mark, after_delete,
}
use interlink_condorce_plugi.Provider.Publishing.{
  Defaults, maybe_refresh_build_config, maybe_publish_resources,
}
use interlink_condorce_plugi.Provider.Resync.{
  Outcome, resync, attempt, accept, register_all, job_names, max_attempts, use_response,
  register_names,
}
use interlink_condorce_plugi.Provider.Subscriptions.{
  IsPaired, register-IsPaired, drop_subscriptions-IsPaired, subscribe_all-IsPaired,
}

-- What happens to a provider between its start and its end: the callbacks, a resync, the messages
-- of a leader, and signals. The functions of the backend are parameters.
pub data Event (Pod : Type 0) : Type 0 where
  create : ℕ → (subject_ : Text) → Result (Text × Pod) → Event Pod
  delete : (subject_ : Text) → Event Pod
  ask_status : ℕ → (subject_ : Text) → Event Pod
  ask_jobs : (ℕ → Outcome) → Event Pod
  refresh publish signal : ℕ → Event Pod
  stop : Event Pod

register_all-IsPaired :
    (jobs : List Text) (p : Provider) → IsPaired p → IsPaired (register_all jobs p)
unfolding register_all
register_all-IsPaired [] p h = h
register_all-IsPaired (job ∷ jobs) p h =
    register_all-IsPaired jobs (register job p) (register-IsPaired job p h)

register_names-IsPaired :
    (r : Result (List Text)) (p : Provider) → IsPaired p → IsPaired (register_names r p).0
unfolding register_names
register_names-IsPaired (err e) p h = h
register_names-IsPaired (ok jobs) p h = register_all-IsPaired jobs p h

accept-IsPaired :
    (r : Result (Unit {0})) (d : Data) (p : Provider) → IsPaired p → IsPaired (accept r d p).0
unfolding accept
accept-IsPaired (err e) d p h = h
accept-IsPaired (ok u) d p h = register_names-IsPaired (job_names d) p h

use_response-IsPaired :
    (print : Data → Text) (r : Option NatsResponse) (p : Provider)
    → IsPaired p
    → IsPaired (use_response print r p).0
unfolding use_response
use_response-IsPaired print none p h = h
use_response-IsPaired print (some r) p h = accept-IsPaired (raise_for_status print r) r.data_ p h

after_delete-IsPaired :
    (job : Text) (r : Result (Unit {0})) (p : Provider)
    → IsPaired p
    → IsPaired (after_delete job r p).0
unfolding after_delete
after_delete-IsPaired job (err e) p h = h
after_delete-IsPaired job (ok u) p h = drop_subscriptions-IsPaired job p h

if-IsPaired {ℓ} :
    {A : Type ℓ} (b : Bool) (x y : Provider × A)
    → IsPaired x.0
    → IsPaired y.0
    → IsPaired (if b then x else y).0
if-IsPaired true x y h k = h
if-IsPaired false x y h k = k

maybe_stop-IsPaired : (now : ℕ) (p : Provider) → IsPaired p → IsPaired (maybe_stop now p)
unfolding maybe_stop tick
maybe_stop-IsPaired now p h = ground (arith, h)

module _ {Pod : Type 0} (create_pod : Text → Text → Pod → Result (Option Text))
    (delete_pod : Text → Result (Unit {0})) (get_status : Text → Result (Option JobStatus))
    (reload customize : BuildConfig → BuildConfig) (defaults : Defaults) (print : Data → Text) where
  pub step : Event Pod → Provider → Provider
  step (create now s body) p = (create_pod_callback create_pod now s body p).0
  step (delete s) p = (delete_pod_callback s delete_pod p).0
  step (ask_status now s) p = (get_pod_status_and_logs_callback now s get_status p).0
  step (ask_jobs replies) p = (resync print replies p).0
  step (refresh now) p = (maybe_refresh_build_config reload customize now p).0
  step (publish now) p = (maybe_publish_resources defaults now p).0
  step (signal now) p = maybe_stop now p
  step stop p = shutdown p

  pub run : List (Event Pod) → Provider → Provider
  unfolding step
  run [] p = p
  run (e ∷ es) p = run es (step e p)

  step-IsPaired : (e : Event Pod) (p : Provider) → IsPaired p → IsPaired (step e p)
  unfolding step create_pod_callback delete_pod_callback get_pod_status_and_logs_callback resync
      maybe_refresh_build_config maybe_publish_resources shutdown tick
  step-IsPaired (create now s (err e)) p h = h
  step-IsPaired (create now s (ok b)) p h =
      register-IsPaired (last_token s) (mark now (last_token s) p) h
  step-IsPaired (delete s) p h =
      after_delete-IsPaired (last_token s) (delete_pod (last_token s)) p h
  step-IsPaired (ask_status now s) p h = h
  step-IsPaired (ask_jobs replies) p h =
      use_response-IsPaired print (attempt max_attempts replies 0) p h
  step-IsPaired (refresh now) p h = if-IsPaired (is_due now (codes "build_config") 60 p) _ _ h h
  step-IsPaired (publish now) p h = if-IsPaired (is_due now (codes "resources") 30 p) _ _ h h
  step-IsPaired (signal now) p h = maybe_stop-IsPaired now p h
  step-IsPaired stop p h = h

  run_from : (es : List (Event Pod)) (p : Provider) → IsPaired p → IsPaired (run es p)
  unfolding run
  run_from [] p h = h
  run_from (e ∷ es) p h = run_from es (step e p) (step-IsPaired e p h)

  -- From its start on, and whatever the order of events, a provider listens to the status subject
  -- of a job exactly if it listens to the job's delete subject.
  pub run-IsPaired :
      (es : List (Event Pod)) (p : Provider)
      → p.subscriptions ≡ []
      → IsPaired (run es (subscribe_all p))
  unfolding has get
  run-IsPaired es p h = run_from es (subscribe_all p) (subscribe_all-IsPaired p (λ j. rw h refl))
