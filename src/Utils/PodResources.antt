-- ===== src/Utils/PodResources.antt =====
-- `compute_pod_resource` of natsprovider/utils.py: what the containers of a pod ask for, in sum.
-- `parse_quantity`, of the Kubernetes client, is a parameter. Its result, a Decimal, is a number of
-- billionths here: a quantity below 0 or finer than a billionth has no counterpart.
use interlink_condorce_plugi.Prelude.{
  ℕ, ◌+◌, ◌-◌, ◌*◌, ◌/◌, Text, codes, List, [], ◌∷◌, Option, none, some, max, Result, ok, ◌>>=◌,
  get_or, collect, nat_eq, list_eq, list_beq, ◌==◌, if◌then◌else◌,
}
use interlink_condorce_plugi.Prelude.Dicts.{Dict, get}

-- `resources` of a container: the names of quantities under "requests", "limits"
pub record Container : Type 0 where
  pub resources : Option (Dict Text (Dict Text Text))

abbrev pub billion : ℕ
billion = 1_000_000_000

-- an empty text is `or`-ed away like one that is missing
unfoldable pub or_default : Text → Option Text → Text
or_default d none = d
or_default d (some []) = d
or_default d (some (c ∷ t)) = c ∷ t

-- `((c.get('resources') or {}).get(section) or {}).get(resource) or default`
unfoldable pub quantity_in : (section resource default : Text) → Container → Text
unfolding or_default get list_beq
quantity_in section resource default c =
    or_default default (get (get_or (get (get_or c.resources []) section) []) resource)

unfoldable pub sum : List ℕ → ℕ
sum [] = 0
sum (n ∷ ns) = n + sum ns

-- `math.ceil` and `int` of a number of billionths
unfoldable pub ceil : ℕ → ℕ
ceil q = (q + (billion - 1)) / billion

unfoldable pub floor : ℕ → ℕ
floor q = q / billion

module _ (parse_quantity : Text → Result ℕ) where
  unfoldable pub gpus_of : Text → Container → Result ℕ
  unfolding quantity_in floor codes
  gpus_of default c = do
    q ← parse_quantity (quantity_in (codes "requests") (codes "nvidia.com/gpu") default c)
    ok (floor q)

  unfoldable pub larger_of : (resource default : Text) → Container → Result ℕ
  unfolding quantity_in codes
  larger_of resource default c = do
    r ← parse_quantity (quantity_in (codes "requests") resource default c)
    l ← parse_quantity (quantity_in (codes "limit") resource default c)
    ok (max r l)

  unfoldable pub compute_pod_resource : List Container → (resource default : Text) → Result ℕ
  unfolding gpus_of larger_of sum ceil codes list_beq collect
  compute_pod_resource containers resource default =
      let key = if resource == codes "millicpu" then codes "cpu" else resource in
      let factor = if resource == codes "millicpu" then 1000 else 1 in
      if resource == codes "nvidia.com/gpu"
      then (do ns ← collect (gpus_of default) containers; ok (sum ns))
      else (do qs ← collect (larger_of key default) containers; ok (ceil (factor * sum qs)))
