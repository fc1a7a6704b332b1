-- ===== src/Slurm/Flavors.antt =====
-- `_resolve_slurm_flavor` and `_update_with_resource_requests` of
-- natsprovider/slurmprovider/SlurmProvider.py: the options of a job, from those of the site, the first
-- flavor that the pod fits, and what the pod asks for. `parse_quantity` is a parameter, as in
-- Utils/PodResources. A memory of a flavor or of the site is a number of bytes after `int`.
use interlink_condorce_plugi.Prelude.{
  ℕ, ◌*◌, ◌/◌, ◌^◌, max, Text, codes, List, [], ◌∷◌, ◌++◌, Option, none, some, Bool, true, not,
  ◌||◌, leb, all, keep, collect, get_or, or_else, Result, ok, err, ◌>>=◌, type_error,
  attribute_error, nat_eq, list_eq, list_beq, ◌==◌, if◌then◌else◌,
}
use interlink_condorce_plugi.Prelude.Dicts.{get, keys}
use interlink_condorce_plugi.Prelude.Numbers.{decimal}
use interlink_condorce_plugi.Utils.PodResources.{Container, billion, floor, compute_pod_resource}
use interlink_condorce_plugi.BuildConfig.Slurm.{SlurmFlavor, SlurmOptions}

-- what the two methods read of a pod
pub record Pod : Type 0 where
  pub containers : List Container
  pub active_deadline_seconds : Option ℕ

-- the options that a flavor replaces: those that it has a value for
unfoldable pub override : SlurmFlavor → SlurmOptions → SlurmOptions
override f o = record o {
  account = or_else f.account o.account;
  partition = or_else f.partition o.partition;
  qos = or_else f.qos o.qos;
  generic_resources = f.generic_resources;
  max_time_seconds = or_else f.max_time_seconds o.max_time_seconds;
  memory = or_else f.memory o.memory;
  cpu = or_else f.cpu o.cpu;
  ntasks = or_else f.ntasks o.ntasks;
  reservation = or_else f.reservation o.reservation;
  nodelist = or_else f.nodelist o.nodelist;
}

-- `max_time_seconds is None or active_deadline_seconds <= max_time_seconds`
unfoldable pub time_condition : Option ℕ → Option ℕ → Result Bool
time_condition deadline none = ok true
time_condition none (some m) = err type_error
time_condition (some d) (some m) = ok (leb d m)

unfoldable pub is_generic : Text → Bool
unfolding list_beq codes
is_generic k = not (k == codes "cpu" || k == codes "memory")

unfoldable pub generic_keys : SlurmFlavor → List Text
unfolding keep keys is_generic
generic_keys f = keep is_generic (keys f.max_resources)

-- `str(max(requested, int(parse_quantity(memory))) >> 20) + "M"`
unfoldable pub memory_flag : ℕ → ℕ → Text
unfolding decimal floor codes
memory_flag requested q = decimal (max requested (floor q) / 2 ^ 20) ++ codes "M"

-- Where the options have no cpu or no memory, the code reads `options.max_resources`, which the
-- class SlurmOptions does not declare.
unfoldable pub given {ℓ} : {A : Type ℓ} → Option A → Result A
given none = err attribute_error
given (some a) = ok a

module _ (parse_quantity : Text → Result ℕ) where
  unfoldable pub get_max_resource : SlurmFlavor → (name default : Text) → Result ℕ
  unfolding get list_beq
  get_max_resource f name default = parse_quantity (get_or (get f.max_resources name) default)

  -- `compute_pod_resource(...) <= _get_max_resource(...)`
  unfoldable pub within : Pod → SlurmFlavor → (key request_default max_default : Text) → Result Bool
  within pod f key request_default max_default = do
    n ← compute_pod_resource parse_quantity pod.containers key request_default
    q ← get_max_resource f key max_default
    ok (leb (n * billion) q)

  unfoldable pub conditions : Pod → SlurmFlavor → Result (List Bool)
  conditions pod f = do
    t ← time_condition pod.active_deadline_seconds f.max_time_seconds
    c ← within pod f (codes "cpu") (codes "1") (codes "1Ei")
    m ← within pod f (codes "memory") (codes "1") (codes "1Ei")
    gs ← collect (λ k. within pod f k (codes "0") (codes "0")) (generic_keys f)
    ok (t ∷ c ∷ m ∷ gs)

  unfoldable pub matches : Pod → SlurmFlavor → Result Bool
  matches pod f = do cs ← conditions pod f; ok (all (λ c. c) cs)

  -- the loop over the flavors
  unfoldable pub first_match : Pod → SlurmOptions → List SlurmFlavor → Result SlurmOptions
  first_match pod o [] = ok o
  first_match pod o (f ∷ fs) =
      let rest = first_match pod o fs in
      (do m ← matches pod f; if m then ok (override f o) else rest)

  -- `enumerate(None)` is a TypeError
  unfoldable pub resolve_slurm_flavor : Pod → SlurmOptions → Result SlurmOptions
  resolve_slurm_flavor pod o = elim o.flavors [
    | none ↦ err type_error
    | some fs ↦ first_match pod o fs
  ]

  unfoldable pub update_with_resource_requests : Pod → SlurmOptions → Result SlurmOptions
  update_with_resource_requests pod o = do
    requested_cpu ← compute_pod_resource parse_quantity pod.containers (codes "cpu") (codes "1")
    requested_memory ←
        compute_pod_resource parse_quantity pod.containers (codes "memory") (codes "1")
    cpu ← given o.cpu
    memory ← given o.memory
    q ← parse_quantity memory
    ok (record o {
      cpu = some (max cpu requested_cpu);
      memory = some (memory_flag requested_memory q);
    })
