-- ===== src/Examples/OfKueue.antt =====
-- The theorems on kueue-nats/docker/controller.py, applied to a flavor with one pool.
use interlink_condorce_plugi.Prelude.{
  ℕ, ◌≡◌, ◌≢◌, refl, Text, codes, List, [], ◌∷◌, none, some, Bool, true, false, ok, err, key_error,
  contains, get_or, min, nat_eq, list_eq, list_beq, if◌then◌else◌, nat_beq, length, keep,
}
use interlink_condorce_plugi.Prelude.Dicts.{get, keys}
use interlink_condorce_plugi.Kueue.{
  NatsFlavor, ResourceStruct, ensure_resource_flavors, compute_quota, or_default, resources_keys,
}
use interlink_condorce_plugi.Kueue.Pools.{Event, message, timer, run}
use interlink_condorce_plugi.Kueue.Flavors.{run-ensure_resource_flavors}
use interlink_condorce_plugi.Kueue.Queues.{
  MasterQueue, nats, KueueFlavor, all_flavors, own_flavors, get_cluster_queue_body, is_fake,
}
use interlink_condorce_plugi.Kueue.Hold.{held, get_cluster_queue_body_hold}
use interlink_condorce_plugi.Kueue.Quotas.{compute_quota-min}

-- an amount is a number here
abbrev flavor : NatsFlavor ℕ
flavor = record {
  master_queue_name = codes "q";
  name = codes "f";
  nominal_quota = (codes "cpu", 8) ∷ [];
  allocatable_quota = [];
  labels = [];
  taints = [];
  virtual_node = some (codes "vk");
  pools = codes "p" ∷ [];
  timeout_seconds = 60;
  pool_timestamps = none;
}

abbrev published : ResourceStruct ℕ
published = record {
  quotas = (codes "cpu", 16) ∷ [];
  labels = codes "site=a" ∷ [];
  taints = codes "k=v:NoSchedule" ∷ [];
}

abbrev no_match : Text → Bool
no_match pool = false

abbrev quantity : ℕ → ℕ
quantity n = n

abbrev events : List (Event ℕ)
events =
    message 1 (codes "interlink.resources.p") published
    ∷ timer 2
    ∷ timer 70_000_000
    ∷ message 71_000_000 (codes "interlink.resources.p") published
    ∷ []

run-ensure_resource_flavors_example :
    ensure_resource_flavors (run no_match events flavor) ≢ err key_error
run-ensure_resource_flavors_example = run-ensure_resource_flavors no_match events flavor refl

-- the same flavor with its pool
abbrev active : NatsFlavor ℕ
active = record flavor {
  allocatable_quota = (codes "p", (codes "cpu", 16) ∷ []) ∷ [];
  labels = (codes "p", []) ∷ [];
  taints = (codes "p", []) ∷ [];
  pool_timestamps = some ((codes "p", 5) ∷ []);
}

has_published : get active.allocatable_quota (codes "p") ≡ some ((codes "cpu", 16) ∷ [])
unfolding get list_beq codes
has_published = refl

has_nominal : get active.nominal_quota (codes "cpu") ≡ some 8
unfolding get list_beq codes
has_nominal = refl

is_resource : contains resources_keys (codes "cpu") ≡ true
unfolding contains list_beq codes
is_resource = refl

compute_quota-min_example :
    (q : List (Text × ℕ)) × (v : ℕ) × (compute_quota quantity 0 (codes "p") active ≡ ok q)
    × (get q (codes "cpu") ≡ some v)
    × (v ≡ min (get_or (get (or_default quantity 0 ((codes "cpu", 16) ∷ [])) (codes "cpu")) 0) 8)
compute_quota-min_example =
    compute_quota-min quantity 0 (codes "p") (codes "cpu") active ((codes "cpu", 16) ∷ []) 8
      has_published has_nominal is_resource

-- a queue whose only flavor has no pool yet
abbrev queue : MasterQueue ℕ
queue = record { name = codes "q"; flavors = nats flavor ∷ [] }

no_pool : all_flavors quantity 0 (own_flavors quantity 0 queue) ≡ ok []
unfolding all_flavors keep is_fake keys
no_pool = refl

get_cluster_queue_body_hold_example :
    get_cluster_queue_body quantity 0 queue
    ≡ ok (
        if nat_beq (length {A = KueueFlavor ℕ} []) 0
        then held quantity 0
        else record { flavors = []; hold = false })
get_cluster_queue_body_hold_example = get_cluster_queue_body_hold quantity 0 queue [] no_pool
