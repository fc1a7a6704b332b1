-- ===== src/Kueue/Quotas.antt =====
-- `compute_quota` of `NatsFlavor` in kueue-nats/docker/controller.py, resource by resource.
use interlink_condorce_plugi.Prelude.{
  ℕ, ◌≡◌, ap, Bool-cases, inl, inr, Text, List, [], ◌∷◌, map, some, true, contains, get_or, ok,
  arith, Eq, ◌==◌, nat_eq, list_eq, min,
}
use interlink_condorce_plugi.Prelude.Dicts.{Dict, get}
use interlink_condorce_plugi.Kueue.{NatsFlavor, quota_of, or_default, compute_quota, resources_keys}

get-map :
    {K V : Type 0} ⦃e : Eq K⦄ (f : K → V) (ks : List K) (k : K)
    → contains ks k ≡ true
    → get (map (λ j. (j, f j)) ks) k ≡ some (f k)
unfolding get contains
get-map f [] k h = cc
get-map ⦃e⦄ f (j ∷ ks) k h = elim (Bool-cases (j == k)) [
  | inl same ↦ rw (get, same) (ap (λ i. some (f i)) ((e.beq_iff j k).0 same))
  | inr other ↦ ground (arith, get-map f ks k)
]

module _ {A : Type 0} (quantity : A → ℕ) (none_at_all : A) where
  quota_of-min :
      (nml alctbl : Dict Text A) (k : Text) (n : A)
      → get nml k ≡ some n
      → quantity (quota_of quantity none_at_all nml alctbl k)
        ≡ min (quantity (get_or (get alctbl k) none_at_all)) (quantity n)
  unfolding quota_of
  quota_of-min nml alctbl k n h = rw (quota_of, h) (ground arith)

-- For a pool that has published its resources, the quota of a resource that the administrator
-- limits is the smaller of the two amounts; one that the pool does not publish counts as zero.
pub compute_quota-min :
    {A : Type 0} (quantity : A → ℕ) (none_at_all : A) (pool k : Text) (f : NatsFlavor A)
    (published : Dict Text A) (n : A)
    → get f.allocatable_quota pool ≡ some published
    → get f.nominal_quota k ≡ some n
    → contains resources_keys k ≡ true
    → (q : List (Text × A)) × (v : A) × (compute_quota quantity none_at_all pool f ≡ ok q)
      × (get q k ≡ some v)
      × (quantity v
          ≡ min
              (quantity (get_or (get (or_default quantity none_at_all published) k) none_at_all))
              (quantity n))
unfolding compute_quota
compute_quota-min quantity none_at_all pool k f published n hp hn hk =
    let quota =
      quota_of quantity none_at_all f.nominal_quota (or_default quantity none_at_all published) in
    (
      map (λ j. (j, quota j)) resources_keys,
      quota k,
      rw (compute_quota, hp),
      get-map quota resources_keys k hk,
      quota_of-min quantity none_at_all f.nominal_quota (or_default quantity none_at_all published)
          k n hn,
    )
