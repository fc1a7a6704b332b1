-- ===== src/Slurm/Requests.antt =====
-- What `_update_with_resource_requests` of natsprovider/slurmprovider/SlurmProvider.py gives a job of
-- what its pod asks for.
use interlink_condorce_plugi.Prelude.{
  ℕ, ◌+◌, ◌*◌, ◌/◌, ◌^◌, ◌≤◌, ◌<◌, max, ◌≡◌, refl, ap, sym, ◌∙◌, Text, codes, ◌++◌, some, arith,
  Result, ok, err, ◌>>=◌, nat_eq, list_eq,
}
use interlink_condorce_plugi.Utils.PodResources.{floor, compute_pod_resource}
use interlink_condorce_plugi.Prelude.Numbers.{decimal}
use interlink_condorce_plugi.BuildConfig.Slurm.{SlurmOptions}
use interlink_condorce_plugi.Slurm.Flavors.{Pod, given, memory_flag, update_with_resource_requests}

module _ (parse_quantity : Text → Result ℕ) where
  -- what the last step writes, if the steps before it return
  abbrev pub Assigned : ℕ → ℕ → SlurmOptions → Type 0
  Assigned c n r =
      (cpu m : ℕ) × (r.cpu ≡ some cpu)
      × (c ≤ cpu)
      × (r.memory ≡ some (decimal m ++ codes "M"))
      × (n < (m + 1) * 2 ^ 20)

  assigned :
      (o r : SlurmOptions) (rc rn gc : Result ℕ) (gm : Result Text) (c n : ℕ)
      → (do
        requested_cpu ← rc
        requested_memory ← rn
        cpu ← gc
        memory ← gm
        q ← parse_quantity memory
        ok (record o {
          cpu = some (max cpu requested_cpu);
          memory = some (memory_flag requested_memory q);
        }))
        ≡ ok r
      → rc ≡ ok c
      → rn ≡ ok n
      → Assigned c n r
  assigned o r (err e) rn gc gm c n h hc hn = cc
  assigned o r (ok a) (err e) gc gm c n h hc hn = cc
  assigned o r (ok a) (ok b) (err e) gm c n h hc hn = cc
  assigned o r (ok a) (ok b) (ok cpu) (err e) c n h hc hn = cc
  assigned o r (ok a) (ok b) (ok cpu) (ok memory) c n h hc hn =
      from_quantity (parse_quantity memory) h
    where
      from_quantity :
          (rq : Result ℕ)
          → (do q ← rq; ok (record o { cpu = some (max cpu a); memory = some (memory_flag b q) }))
            ≡ ok r
          → Assigned c n r
      from_quantity (err e) g = cc
      from_quantity (ok q) g =
          let same : record o { cpu = some (max cpu a); memory = some (memory_flag b q) } ≡ r =
            cc in
          let at_c : a ≡ c = cc in
          let at_n : b ≡ n = cc in
          (
            max cpu a,
            max b (floor q) / 2 ^ 20,
            ap (λ (s : SlurmOptions). s.cpu) (sym same),
            omega arith,
            ap (λ (s : SlurmOptions). s.memory) (sym same) ∙ (unfold memory_flag in refl),
            omega arith,
          )

  -- If the method returns, the job is given at least the cpus that the pod asks for, and its memory
  -- is a whole number of megabytes that falls short of what the pod asks for by less than one.
  pub update_with_resource_requests-bounds :
      (pod : Pod) (o r : SlurmOptions) (c n : ℕ)
      → compute_pod_resource parse_quantity pod.containers (codes "cpu") (codes "1") ≡ ok c
      → compute_pod_resource parse_quantity pod.containers (codes "memory") (codes "1") ≡ ok n
      → update_with_resource_requests parse_quantity pod o ≡ ok r
      → Assigned c n r
  unfolding update_with_resource_requests
  update_with_resource_requests-bounds pod o r c n hc hn h =
      assigned o r (compute_pod_resource parse_quantity pod.containers (codes "cpu") (codes "1"))
        (compute_pod_resource parse_quantity pod.containers (codes "memory") (codes "1"))
        (given o.cpu) (given o.memory) c n h hc hn
