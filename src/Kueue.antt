-- ===== src/Kueue.antt =====
-- `NatsFlavor` of kueue-nats/docker/controller.py: the pools that have lately published their
-- resources, their quotas, and the resource flavors that the controller makes of them. What Kubernetes
-- does with a flavor is not modelled. A time is a number of microseconds.
pub mod Pools
pub mod Flavors
pub mod Quotas
pub mod Queues
pub mod Hold
use interlink_condorce_plugi.Prelude.{
  ℕ, zero, suc, ◌+◌, ◌*◌, Text, codes, List, [], ◌∷◌, ◌++◌, map, Option, none, some, Bool, true,
  false, ◌||◌, nat_beq, ltb, contains, split_at, join, collect, get_or, Result, ok, err, ◌>>=◌,
  key_error, value_error, nat_eq, list_eq, ◌==◌, if◌then◌else◌,
}
use interlink_condorce_plugi.Prelude.Dicts.{Dict, get, put, keys, keep_items}
use interlink_condorce_plugi.Utils.JobId.{item}
use interlink_condorce_plugi.Subjects.{last_token}

-- The amounts of resources are numbers or texts, and `parse_quantity` reads them: `A` and `quantity`
-- stand for them, in the smallest unit that Kubernetes knows. `none_at_all` is the number 0.
pub record NatsFlavor (A : Type 0) : Type 0 where
  pub master_queue_name : Text
  pub name : Text
  pub nominal_quota : Dict Text A
  pub allocatable_quota : Dict Text (Dict Text A)
  pub labels : Dict Text (List Text)
  pub taints : Dict Text (List Text)
  pub virtual_node : Option Text
  pub pools : List Text
  pub timeout_seconds : ℕ
  pub pool_timestamps : Option (Dict Text ℕ)

-- a message about the resources of a pool, absent entries being empty
pub record ResourceStruct (A : Type 0) : Type 0 where
  pub quotas : Dict Text A
  pub labels : List Text
  pub taints : List Text

-- RESOURCES_KEYS
abbrev pub resources_keys : List Text
resources_keys = codes "cpu" ∷ codes "memory" ∷ codes "pods" ∷ codes "nvidia.com/gpu" ∷ []

abbrev pub timestamps : {A : Type 0} → NatsFlavor A → Dict Text ℕ
timestamps f = get_or f.pool_timestamps []

module _ {A : Type 0} (matches : Text → Bool) where
  -- `update_resources_cb`; `matches` is the search for `pool_reg_exp`, if there is one
  unfoldable pub update_resources_cb :
      ℕ → (subject_ : Text) → ResourceStruct A → NatsFlavor A → NatsFlavor A
  update_resources_cb now subject_ s f =
      let pool = last_token subject_ in
      if contains f.pools pool || matches pool
      then record f {
        allocatable_quota = put f.allocatable_quota pool s.quotas;
        labels = put f.labels pool s.labels;
        taints = put f.taints pool s.taints;
        pool_timestamps = some (put (timestamps f) pool now);
      }
      else f

-- `(datetime.now() - t).total_seconds() < self.timeout_seconds`
unfoldable pub is_fresh : ℕ → ℕ → ℕ → Bool
is_fresh now timeout t = ltb now (t + timeout * 1_000_000)

-- the part of `on_tick` that drops silent pools
unfoldable pub drop_silent_of : ℕ → (timeout : ℕ) → Option (Dict Text ℕ) → Option (Dict Text ℕ)
unfolding is_fresh
drop_silent_of now timeout none = none
drop_silent_of now timeout (some ts) = some (keep_items (λ k t. is_fresh now timeout t) ts)

unfoldable pub drop_silent : {A : Type 0} → ℕ → NatsFlavor A → NatsFlavor A
unfolding drop_silent_of
drop_silent now f = record f {
  pool_timestamps = drop_silent_of now f.timeout_seconds f.pool_timestamps;
}

module _ {A : Type 0} (quantity : A → ℕ) (none_at_all : A) where
  -- one entry of `compute_quota`
  unfoldable pub quota_of : Dict Text A → Dict Text A → Text → A
  unfolding get
  quota_of nml alctbl k = elim (get nml k) [
    | none ↦ get_or (get alctbl k) none_at_all
    | some n ↦
        if ltb (quantity (get_or (get alctbl k) none_at_all)) (quantity n)
        then get_or (get alctbl k) none_at_all
        else n
  ]

  -- `_default_quota` in place of an empty dict
  unfoldable pub or_default : Dict Text A → Dict Text A
  or_default [] = map (λ k. (k, none_at_all)) resources_keys
  or_default (e ∷ es) = e ∷ es

  unfoldable pub compute_quota : Text → NatsFlavor A → Result (List (Text × A))
  unfolding quota_of or_default get
  compute_quota pool f = elim (get f.allocatable_quota pool) [
    | none ↦ err key_error
    | some alctbl ↦
        ok (map (λ k. (k, quota_of f.nominal_quota (or_default alctbl) k)) resources_keys)
  ]

  abbrev pub flavor_name : NatsFlavor A → Text → Text
  flavor_name f pool = join (codes "-") (f.master_queue_name ∷ f.name ∷ pool ∷ [])

  -- one flavor of `kueue_flavors`
  unfoldable pub kueue_flavor : NatsFlavor A → Text → Result (Text × List (Text × A))
  unfolding compute_quota join
  kueue_flavor f pool = do q ← compute_quota pool f; ok (flavor_name f pool, q)

  unfoldable pub kueue_flavors : NatsFlavor A → Result (List (Text × List (Text × A)))
  unfolding kueue_flavor collect
  kueue_flavors f = collect (kueue_flavor f) (keys (timestamps f))

-- The value of a label is a text, or True.
pub data LabelValue : Type 0 where
  is_set : LabelValue
  text : Text → LabelValue

unfoldable pub count_in : ℕ → Text → ℕ
count_in c [] = 0
count_in c (d ∷ t) = (if nat_beq d c then 1 else 0) + count_in c t

-- `t[:-1]`
unfoldable pub but_last : Text → Text
but_last [] = []
but_last (c ∷ []) = []
but_last (c ∷ d ∷ t) = c ∷ but_last (d ∷ t)

-- `key, value = parts`
unfoldable pub pair_of : List Text → Result (Text × Text)
pair_of (k ∷ v ∷ []) = ok (k, v)
pair_of _ = err value_error

-- What a label adds. Three parts, of which the last is empty, raise ValueError.
unfoldable pub add_label : Text → Dict Text LabelValue → Result (Dict Text LabelValue)
unfolding count_in but_last pair_of split_at put
add_label [] d = ok d
add_label (c ∷ t) d =
    let l = c ∷ t in
    let n = count_in b'=' (but_last l) in
    if nat_beq n 0
    then ok (put d l is_set)
    else if nat_beq n 1
    then (do kv ← pair_of (split_at b'=' l); ok (put d kv.0 (text kv.1)))
    else ok d

unfoldable pub rf_labels : List Text → Dict Text LabelValue → Result (Dict Text LabelValue)
unfolding add_label
rf_labels [] d = ok d
rf_labels (l ∷ ls) d = do d' ← add_label l d; rf_labels ls d'

pub record Taint : Type 0 where
  pub key : Text
  pub value : Text
  pub effect : Text

-- A taint that is not of the form `key=value:effect` is left out.
unfoldable pub parse_taint : Text → Result Taint
unfolding pair_of split_at
parse_taint t = do
  ke ← pair_of (split_at b':' t)
  kv ← pair_of (split_at b'=' ke.0)
  ok (record { key = kv.0; value = kv.1; effect = ke.1 })

unfoldable pub node_taints : List Text → List Taint
unfolding parse_taint
node_taints [] = []
node_taints (t ∷ ts) = elim (parse_taint t) [ err e ↦ node_taints ts | ok x ↦ x ∷ node_taints ts ]

pub record ResourceFlavor : Type 0 where
  pub name : Text
  pub labels : Dict Text LabelValue
  pub node_labels : Dict Text Text
  pub taints : List Taint
  pub pool : Text

unfoldable pub hostname_of : Option Text → Dict Text Text
hostname_of none = []
hostname_of (some node) = (codes "kubernetes.io/hostname", node) ∷ []

abbrev pub no_schedule : Taint
no_schedule = record {
  key = codes "virtual-node.interlink/no-schedule";
  value = codes "true";
  effect = codes "NoSchedule";
}

-- `d[k]`
unfoldable pub entry {ℓ} : {V : Type ℓ} → Dict Text V → Text → Result V
unfolding get
entry d k = elim (get d k) [ none ↦ err key_error | some v ↦ ok v ]

-- the flavor that `ensure_resource_flavors` patches or creates for a pool
unfoldable pub resource_flavor : {A : Type 0} → NatsFlavor A → Text → Result ResourceFlavor
unfolding entry rf_labels node_taints hostname_of join
resource_flavor f pool = do
  ls ← entry f.labels pool
  d ← rf_labels ls []
  ts ← entry f.taints pool
  ok (record {
    name = join (codes "-") (f.master_queue_name ∷ f.name ∷ pool ∷ []);
    labels = d;
    node_labels = hostname_of f.virtual_node;
    taints = no_schedule ∷ node_taints ts;
    pool = pool;
  })

unfoldable pub ensure_resource_flavors : {A : Type 0} → NatsFlavor A → Result (List ResourceFlavor)
unfolding resource_flavor collect
ensure_resource_flavors f = collect (resource_flavor f) (keys (timestamps f))

-- what `maybe_update_cluster_queue` puts of an old flavor into the new one of the same name
unfoldable pub import_fields : {A : Type 0} → (old new : NatsFlavor A) → NatsFlavor A
import_fields old new = record new {
  allocatable_quota = old.allocatable_quota;
  pool_timestamps = old.pool_timestamps;
}
