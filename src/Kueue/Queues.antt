-- ===== src/Kueue/Queues.antt =====
-- `MasterQueue` of kueue-nats/docker/controller.py: its flavors, and the cluster queue that the
-- controller makes of it, less the template of the administrator.
use interlink_condorce_plugi.Prelude.{
  ℕ, Text, codes, List, [], ◌∷◌, ◌++◌, map, Bool, true, false, not, all, keep, collect, length,
  nat_beq, Result, ok, ◌>>=◌, if◌then◌else◌,
}
use interlink_condorce_plugi.Prelude.Dicts.{Dict}
use interlink_condorce_plugi.Kueue
use interlink_condorce_plugi.Kueue.{NatsFlavor, entry, resources_keys}

pub record LocalFlavor (A : Type 0) : Type 0 where
  pub name : Text
  pub nominal_quota : Dict Text A

pub data Flavor (A : Type 0) : Type 0 where
  local : LocalFlavor A → Flavor A
  nats : NatsFlavor A → Flavor A
  fake : LocalFlavor A → Flavor A

pub record MasterQueue (A : Type 0) : Type 0 where
  pub name : Text
  pub flavors : List (Flavor A)

-- a flavor as Kueue knows it: its name and the quotas of the resources
pub record KueueFlavor (A : Type 0) : Type 0 where
  pub name : Text
  pub resources : List (Text × A)

-- the cluster queue: its flavors, and whether `stopPolicy` is 'Hold'
pub record ClusterQueue (A : Type 0) : Type 0 where
  pub flavors : List (KueueFlavor A)
  pub hold : Bool

-- FAIL_OVER_FLAVOR_NAME
abbrev pub fail_over_flavor_name : Text
fail_over_flavor_name = codes "non-existing-flavor-proxy-for-inactive-pools"

unfoldable pub is_fake : {A : Type 0} → Flavor A → Bool
is_fake (local f) = false
is_fake (nats f) = false
is_fake (fake f) = true

-- one resource of `LocalFlavor.kueue_flavors`; a missing quota is a KeyError
unfoldable pub resource : {A : Type 0} → Dict Text A → Text → Result (Text × A)
unfolding entry
resource quota k = do v ← entry quota k; ok (k, v)

unfoldable pub local_flavors : {A : Type 0} → LocalFlavor A → Result (List (KueueFlavor A))
unfolding resource collect
local_flavors f = do
  rs ← collect (resource f.nominal_quota) resources_keys
  ok (record { name = f.name; resources = rs } ∷ [])

module _ {A : Type 0} (quantity : A → ℕ) (none_at_all : A) where
  unfoldable pub nats_flavors : NatsFlavor A → Result (List (KueueFlavor A))
  unfolding interlink_condorce_plugi.Kueue.kueue_flavors
  nats_flavors f = do
    l ← Kueue.kueue_flavors quantity none_at_all f
    ok (map (λ e. record { name = e.0; resources = e.1 }) l)

  -- `f.kueue_flavors`
  unfoldable pub flavors_of : Flavor A → Result (List (KueueFlavor A))
  unfolding local_flavors nats_flavors
  flavors_of (local f) = local_flavors f
  flavors_of (nats f) = nats_flavors f
  flavors_of (fake f) = local_flavors f

  -- `sum([f.kueue_flavors for f in flavors], [])`
  unfoldable pub all_flavors : List (Flavor A) → Result (List (KueueFlavor A))
  unfolding flavors_of
  all_flavors [] = ok []
  all_flavors (f ∷ fs) = do l ← flavors_of f; ls ← all_flavors fs; ok (l ++ ls)

  -- `FakeFlavor.get_instance`
  unfoldable pub fake_flavor : Flavor A
  fake_flavor = fake (record {
    name = fail_over_flavor_name;
    nominal_quota = map (λ k. (k, none_at_all)) resources_keys;
  })

  abbrev pub own_flavors : MasterQueue A → List (Flavor A)
  own_flavors q = keep (λ f. not (is_fake f)) q.flavors

  unfoldable pub get_flavors : MasterQueue A → Result (List (Flavor A))
  unfolding all_flavors fake_flavor is_fake keep
  get_flavors q = do
    l ← all_flavors (own_flavors q)
    ok (if nat_beq (length l) 0 then fake_flavor ∷ [] else own_flavors q)

  -- `get_cluster_queue_body`
  unfoldable pub get_cluster_queue_body : MasterQueue A → Result (ClusterQueue A)
  unfolding get_flavors all_flavors is_fake all
  get_cluster_queue_body q = do
    fs ← get_flavors q
    l ← all_flavors fs
    ok (record { flavors = l; hold = all is_fake fs })
