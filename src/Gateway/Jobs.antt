-- ===== src/Gateway/Jobs.antt =====
-- What `create_job` and `delete_pod` of natsprovider/NatsGateway.py leave in Redis.
use interlink_condorce_plugi.Prelude.{
  ◌≡◌, refl, Text, codes, Option, none, some, Bool, true, false, Result, ok, err, get_or, nat_eq,
  list_eq, if◌then◌else◌,
}
use interlink_condorce_plugi.Prelude.Dicts.{get, dict_laws}
use interlink_condorce_plugi.Utils.Responses.{Data, raise_for_status}
use interlink_condorce_plugi.BuildConfig.{BuildConfig}
use interlink_condorce_plugi.Interlink.{PodRequest}
use interlink_condorce_plugi.Provider.Resync.{Outcome}
use interlink_condorce_plugi.Subjects.{subject, create_subject}
use interlink_condorce_plugi.Action.{◌>>=◌, continue, lift->>=-cases, lift, gets, modify, pure}
use interlink_condorce_plugi.Gateway.{
  Gateway, Redis, PodState, creating, created, deleting, deleted, on_redis, hset_pool, hset_status,
  note_creating, nats_connection, retrieve_pool_from_tolerations, jobid, submit, create_job,
  delete_pod, forget,
}

-- what Redis holds for a job
abbrev pub pool_of : Text → Gateway → Option Text
pool_of id g = elim g.redis [ none ↦ none | some r ↦ get r.pod_pool id ]

abbrev pub state_of : Text → Gateway → Option PodState
state_of id g = elim g.redis [ none ↦ none | some r ↦ get r.pod_status id ]

abbrev pub is_ok {ℓ} : {A : Type ℓ} → Result A → Bool
is_ok (ok a) = true
is_ok (err e) = false

abbrev pub registered : Text → Text → Redis → Gateway → Gateway
registered id pool r g = record g { redis = some (hset_status id creating (hset_pool id pool r)) }

-- `m` makes `f` of `g` if it returns, and leaves `g` as it was if it raises
abbrev pub Commits : {A : Type 0} → Result A × Gateway → (Gateway → Gateway) → Gateway → Type 0
Commits (result, g') f g = g' ≡ (if is_ok result then f g else g)

Commits-cases :
    {A : Type 0} (P : Bool → Gateway → Type 0) (m : Result A × Gateway) (f : Gateway → Gateway)
    (g : Gateway)
    → Commits m f g
    → P true (f g)
    → P false g
    → P (is_ok m.0) m.1
Commits-cases P (ok a, g') f g h went raised = rw (h) went
Commits-cases P (err e, g') f g h went raised = rw (h) raised

module _ (print : Data → Text) (build : PodRequest → BuildConfig → Result Text)
    (default : BuildConfig) (send : Text → Outcome) (pod : PodRequest) (id : Text)
    (named : jobid pod ≡ ok id) where
  submit-Commits :
      (pool : Text) (g : Gateway)
      → Commits (submit print build default send pod pool g) (on_redis (hset_status id created)) g
  unfolding submit ◌>>=◌ lift gets modify pure
  submit-Commits pool g =
      lift->>=-cases (λ m. Commits m (on_redis (hset_status id created)) g)
        (build pod (get_or (get g.build_configs pool) default)) _ g (λ e. refl)
        (λ sh _.
          rw (named, continue)
            (lift->>=-cases (λ m. Commits m (on_redis (hset_status id created)) g)
              (nats_connection (send (create_subject g.nats_subject pool id))) _ g (λ e. refl)
              (λ r _.
                lift->>=-cases (λ m. Commits m (on_redis (hset_status id created)) g)
                  (raise_for_status print r) _ g (λ e. refl) (λ u _. refl))))

  create_job-submit :
      (g : Gateway) (r : Redis) (pool : Text)
      → g.redis ≡ some r
      → retrieve_pool_from_tolerations pod.tolerations ≡ ok pool
      → create_job print build default send pod g
        ≡ submit print build default send pod pool (registered id pool r g)
  unfolding create_job ◌>>=◌ note_creating lift
  create_job-submit g r pool hr hp = rw (hp, continue, note_creating, hr, named, on_redis, hr)

-- With Redis, once the pool and the job name of a pod are known, the job is put under its pool
-- whatever becomes of the request, also if building the script or the backend fails; its state is
-- `created` exactly if the method returns, and `creating` if it raises.
pub create_job_traces :
    (print : Data → Text) (build : PodRequest → BuildConfig → Result Text) (default : BuildConfig)
    (send : Text → Outcome) (pod : PodRequest) (g : Gateway) (r : Redis) (pool id : Text)
    → g.redis ≡ some r
    → retrieve_pool_from_tolerations pod.tolerations ≡ ok pool
    → jobid pod ≡ ok id
    → let (result, g') = create_job print build default send pod g in
      (pool_of id g' ≡ some pool)
      × (state_of id g' ≡ some (if is_ok result then created else creating))
unfolding on_redis hset_status hset_pool
create_job_traces print build default send pod g r pool id hr hp hi =
    rw (create_job-submit print build default send pod id hi g r pool hr hp) (
      Commits-cases
        (λ good g'.
          (pool_of id g' ≡ some pool)
          × (state_of id g' ≡ some (if good then created else creating)))
        _ (on_redis (hset_status id created)) (registered id pool r g)
        (submit-Commits print build default send pod id hi pool (registered id pool r g))
        (simp (dict_laws), simp (dict_laws)) (simp (dict_laws), simp (dict_laws)))

delete_pod-Commits :
    (print : Data → Text) (send : Text → Outcome) (pod : PodRequest) (g : Gateway) (id : Text)
    → jobid pod ≡ ok id
    → Commits
        (delete_pod print send pod g)
        (on_redis (forget id))
        (on_redis (hset_status id deleting) g)
unfolding delete_pod ◌>>=◌ lift gets modify pure
delete_pod-Commits print send pod g id hi =
    rw (hi, continue)
      (lift->>=-cases (λ m. Commits m (on_redis (forget id)) (on_redis (hset_status id deleting) g))
        (nats_connection (send (subject _ (codes "delete") id))) _ _ (λ e. refl)
        (λ r _.
          lift->>=-cases
            (λ m. Commits m (on_redis (forget id)) (on_redis (hset_status id deleting) g))
            (raise_for_status print r) _ _ (λ e. refl) (λ u _. refl)))

-- With Redis, once the job name of a pod is known, the pool of the job is forgotten exactly if the
-- deletion returns, and kept, as a resync would still answer it, if the request fails or the
-- backend answers an error; the state of the job is `deleted` or `deleting` accordingly.
pub delete_pod_traces :
    (print : Data → Text) (send : Text → Outcome) (pod : PodRequest) (g : Gateway) (r : Redis)
    (id : Text)
    → g.redis ≡ some r
    → jobid pod ≡ ok id
    → let (result, g') = delete_pod print send pod g in
      (pool_of id g' ≡ (if is_ok result then none else pool_of id g))
      × (state_of id g' ≡ some (if is_ok result then deleted else deleting))
unfolding on_redis hset_status forget
delete_pod_traces print send pod g r id hr hi =
    Commits-cases
      (λ good g'.
        (pool_of id g' ≡ (if good then none else pool_of id g))
        × (state_of id g' ≡ some (if good then deleted else deleting)))
      _ (on_redis (forget id)) (on_redis (hset_status id deleting) g)
      (delete_pod-Commits print send pod g id hi)
      (rw (hr) (simp (dict_laws)), rw (hr) (simp (dict_laws))) (rw (hr), rw (hr) (simp (dict_laws)))
