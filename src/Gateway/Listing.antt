-- ===== src/Gateway/Listing.antt =====
-- What `resync_callback` of natsprovider/NatsGateway.py answers a provider that restarts, after
-- `create_job` and `delete_pod`.
use interlink_condorce_plugi.Prelude.{
  ◌≡◌, ◌∙◌, refl, sym, Text, List, [], ◌∷◌, none, some, Bool, true, false, arith, nat_eq, list_eq,
  Eq, ◌==◌, Result, ok, contains, Option-cases, inl, inr,
}
use interlink_condorce_plugi.Prelude.Dicts.{Dict, get, keys, keep_items}
use interlink_condorce_plugi.Utils.Responses.{Data, names}
use interlink_condorce_plugi.BuildConfig.{BuildConfig}
use interlink_condorce_plugi.Interlink.{PodRequest}
use interlink_condorce_plugi.Provider.Resync.{Outcome}
use interlink_condorce_plugi.Subjects.{last_token}
use interlink_condorce_plugi.Gateway.{
  Gateway, Redis, jobid, retrieve_pool_from_tolerations, create_job, delete_pod, resync_callback,
}
use interlink_condorce_plugi.Gateway.Jobs.{pool_of, create_job_traces, delete_pod_traces}

module _ {K V : Type 0} ⦃e : Eq K⦄ ⦃f : Eq V⦄ where
  -- a key whose first value passes is among the keys of a filtered dict
  contains-keys :
      (d : Dict K V) (k : K) (v : V)
      → get d k ≡ some v
      → contains (keys (keep_items (λ j w. w == v) d)) k ≡ true
  unfolding get keys keep_items contains
  contains-keys [] k v h = cc
  contains-keys ((j, w) ∷ d) k v h =
      ground (arith, e.beq_iff j k, f.beq_iff w v, contains-keys d k v)

  -- a missing key is not
  contains-keys-none :
      (d : Dict K V) (p : K → V → Bool) (k : K)
      → get d k ≡ none
      → contains (keys (keep_items p d)) k ≡ false
  unfolding get keys keep_items contains
  contains-keys-none [] p k h = refl
  contains-keys-none ((j, w) ∷ d) p k h = ground (arith, e.beq_iff j k, contains-keys-none d p k)

-- the jobs that the answer to a resync names
abbrev pub resynced : Text → Gateway → Data
resynced subject_ g = (resync_callback subject_ g).data_

abbrev pub Lists : Data → Text → Bool → Type 0
Lists d job b = (jobs : List Text) × (d ≡ names jobs) × (contains jobs job ≡ b)

pool_of-get :
    (job : Text) (g : Gateway) (r : Redis) → g.redis ≡ some r → pool_of job g ≡ get r.pod_pool job
pool_of-get job g r h = rw (h)

resync_callback-Lists :
    (subject_ job : Text) (g : Gateway)
    → pool_of job g ≡ some (last_token subject_)
    → Lists (resynced subject_ g) job true
unfolding resync_callback
resync_callback-Lists subject_ job g h = elim (Option-cases g.redis) [
  | inl hr ↦ cc
  | inr (r, hr) ↦
      rw (hr) (_, refl, contains-keys r.pod_pool job _ (sym (pool_of-get job g r hr) ∙ h))
]

resync_callback-Lists-none :
    (subject_ job : Text) (g : Gateway)
    → pool_of job g ≡ none
    → Lists (resynced subject_ g) job false
unfolding resync_callback contains
resync_callback-Lists-none subject_ job g h = elim (Option-cases g.redis) [
  | inl hr ↦ rw (hr) ([], refl, refl)
  | inr (r, hr) ↦
      rw (hr) (_, refl, contains-keys-none r.pod_pool _ job (sym (pool_of-get job g r hr) ∙ h))
]

-- With Redis, once the pool and the job name of a pod are known, a provider of that pool that asks
-- for its jobs after `create_job` is told of the job, whether `create_job` returned or raised.
pub created_job_listed :
    (print : Data → Text) (build : PodRequest → BuildConfig → Result Text) (default : BuildConfig)
    (send : Text → Outcome) (pod : PodRequest) (g : Gateway) (r : Redis) (id subject_ : Text)
    → g.redis ≡ some r
    → retrieve_pool_from_tolerations pod.tolerations ≡ ok (last_token subject_)
    → jobid pod ≡ ok id
    → Lists (resynced subject_ (create_job print build default send pod g).1) id true
created_job_listed print build default send pod g r id subject_ hr hp hi =
    resync_callback-Lists subject_ id _
      (create_job_traces print build default send pod g r (last_token subject_) id hr hp hi).0

-- With Redis, once the job name of a pod is known and `delete_pod` has returned, no provider that
-- asks for its jobs is told of the job.
pub deleted_job_not_listed :
    (print : Data → Text) (send : Text → Outcome) (pod : PodRequest) (g : Gateway) (r : Redis)
    (id subject_ : Text)
    → g.redis ≡ some r
    → jobid pod ≡ ok id
    → (delete_pod print send pod g).0 ≡ ok tt
    → Lists (resynced subject_ (delete_pod print send pod g).1) id false
deleted_job_not_listed print send pod g r id subject_ hr hi h =
    resync_callback-Lists-none subject_ id _
      ((delete_pod_traces print send pod g r id hr hi).0 ∙ rw (h))
