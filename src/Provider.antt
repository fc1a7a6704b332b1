-- ===== src/Provider.antt =====
-- The state of `BaseNatsProvider` (natsprovider/BaseNatsProvider.py), its timers, and its table of
-- subscriptions. The children model the callbacks and the messages that the provider publishes.
-- A time is a number of microseconds. The NATS connection itself is not modelled: a subscription is
-- an entry of the table, and `await` points where other callbacks run stand between the steps.
pub mod Callbacks
pub mod Publishing
pub mod Resync
pub mod Stopping
pub mod Subscriptions
pub mod Replies
pub mod Events
pub mod Recovery
use interlink_condorce_plugi.Prelude.{
  ℕ, ◌+◌, ◌*◌, Text, codes, List, [], ◌∷◌, map, keep, Option, none, some, Bool, true, false, not,
  is_none, starts_with, join, get_or, split_last, ltb, ◌==◌, nat_eq, list_eq, if◌then◌else◌,
}
use interlink_condorce_plugi.Prelude.Dicts.{Dict, get, put, keys, keep_items}
use interlink_condorce_plugi.Utils.Resources.{Resources}
use interlink_condorce_plugi.BuildConfig.{BuildConfig}
use interlink_condorce_plugi.SubmissionRecord.{SubmissionRecord}
use interlink_condorce_plugi.Subjects.{subject, create_subject, last_token}

-- the callback of a subscription
pub data Handler : Type 0 where
  create_pod_callback delete_pod_callback get_pod_status_and_logs_callback shutdown_callback :
      Handler

pub record Provider : Type 0 where
  pub nats_subject : Text
  pub nats_pool : Text
  pub interactive_mode : Bool
  pub shutdown_subject : Text
  pub build_config : BuildConfig
  pub leader : Bool
  pub subscriptions : Dict Text Handler
  pub running : Bool
  pub latest_tick : Dict Text ℕ
  pub declared_resources : Resources
  pub warned_on_unset_resources : List Text
  pub submission_record : SubmissionRecord

-- `BaseNatsProvider.__init__`; `SubmissionRecord()` has the defaults 0xFFFF and 300.
unfoldable pub init :
    (nats_subject nats_pool : Text)
    → BuildConfig
    → Resources
    → (interactive_mode : Bool) → (shutdown_subject : Option Text) → (leader : Bool) → Provider
init nats_subject nats_pool build_config resources interactive_mode shutdown_subject leader =
    record {
      nats_subject = nats_subject;
      nats_pool = nats_pool;
      interactive_mode = interactive_mode;
      shutdown_subject = get_or shutdown_subject nats_pool;
      build_config = build_config;
      leader = leader;
      subscriptions = [];
      running = true;
      latest_tick = [];
      declared_resources = resources;
      warned_on_unset_resources = [];
      submission_record = record { max_length = 0xFFFF; timeout_seconds = 300; queue = [] };
    }

-- `required_updates` yields once if the timer was never set or was set more than `delay` seconds
-- ago, and sets it before it yields.
unfoldable pub is_due : ℕ → Text → ℕ → Provider → Bool
is_due now timer_key delay p = elim (get p.latest_tick timer_key) [
  | none ↦ true
  | some t ↦ ltb (t + delay * 1_000_000) now
]

unfoldable pub tick : ℕ → Text → Provider → Provider
tick now timer_key p = record p { latest_tick = put p.latest_tick timer_key now }

-- The `for ... else` of `maybe_stop`: an interactive provider leaves the loop by `break` when the
-- timer fires, and in every other case the `else` stops it.
unfoldable pub maybe_stop : ℕ → Provider → Provider
unfolding is_due tick
maybe_stop now p =
    if is_due now (codes "stop") 3 p
    then (if p.interactive_mode
        then tick now (codes "stop") p
        else record (tick now (codes "stop") p) { running = false })
    else record p { running = false }

abbrev pub status_subject : Provider → Text → Text
status_subject p job = subject p.nats_subject (codes "status") job

abbrev pub delete_subject : Provider → Text → Text
delete_subject p job = subject p.nats_subject (codes "delete") job

unfoldable pub subscribe : Text → Handler → Provider → Provider
subscribe s h p = record p { subscriptions = put p.subscriptions s h }

-- `_register_status_and_delete_callbacks`
unfoldable pub register : Text → Provider → Provider
unfolding subscribe
register job p =
    subscribe (delete_subject p job) delete_pod_callback
      (subscribe (status_subject p job) get_pod_status_and_logs_callback p)

-- the last part of `delete_pod_callback`
unfoldable pub drop_subscriptions : Text → Provider → Provider
drop_subscriptions job p = record p {
  subscriptions = keep_items (λ s h. not (last_token s == job)) p.subscriptions;
}

-- `subscribed_jobs`, which splits the subjects at colons
unfoldable pub subscribed_jobs : Provider → List Text
subscribed_jobs p =
    let status_prefix = join (codes ".") (p.nats_subject ∷ codes "status" ∷ []) in
    map (split_last b':') (keep (λ s. starts_with s status_prefix) (keys p.subscriptions))

-- `main_loop` up to its loop, less the messages of a leader (Publishing and Resync)
unfoldable pub subscribe_all : Provider → Provider
unfolding subscribe
subscribe_all p =
    subscribe (subject p.nats_subject (codes "shutdown") p.shutdown_subject) shutdown_callback
      (subscribe (create_subject p.nats_subject p.nats_pool (codes "*")) create_pod_callback p)

-- `shutdown_callback`
unfoldable pub shutdown : Provider → Provider
shutdown p = record p { running = false }
