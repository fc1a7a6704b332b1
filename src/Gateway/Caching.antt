-- ===== src/Gateway/Caching.antt =====
-- The cache of `get_pod_status` of natsprovider/NatsGateway.py.
use interlink_condorce_plugi.Prelude.{
  ℕ, ◌≡◌, ◌∙◌, sym, ap, Text, codes, List, [], ◌∷◌, Option, none, some, is_some, Bool, true, arith,
  nat_eq, list_eq, Result, ok, Option-cases, Bool-cases, inl, inr, nat_beq, length,
}
use interlink_condorce_plugi.Prelude.Dicts.{dict_laws}
use interlink_condorce_plugi.Utils.Responses.{
  Data, status, JobStatus, Phase, pending, running, succeeded, failed, unknown, raise_for_status,
}
use interlink_condorce_plugi.Interlink.{PodRequest, PodStatus}
use interlink_condorce_plugi.Subjects.{subject}
use interlink_condorce_plugi.Provider.Resync.{Outcome}
use interlink_condorce_plugi.Action.{◌>>=◌, continue, lift, gets, modify, pure, lift->>=-cases}
use interlink_condorce_plugi.Apptainer.Logs.{Builder, process_logs}
use interlink_condorce_plugi.Gateway.{
  Gateway, Redis, PodState, Statuses, on_redis, jobid, retrieve_pool_from_tolerations,
}
use interlink_condorce_plugi.Gateway.Status.{
  got, poll, job_status, or_empty, of_codes, phase_of_codes,
}
use interlink_condorce_plugi.Gateway.Transitions.{note_lost-lose}
use interlink_condorce_plugi.Gateway.PodStatus.{
  count, note_running, note_end, note_lost, lose, current_status, ended, at_end, statuses_of,
  finish, conclude_report, conclude, fetch, answer, cached, get_pod_status, is_terminal, pod_status,
  hset_statuses,
}

-- a status that the method returns is the one that Redis has for the job
abbrev pub Settles : PodRequest → Text → Result (Option PodStatus) × Gateway → Type 0
Settles pod id (result, g) =
    (s : PodStatus)
    → result ≡ ok (some s)
    → (st : Statuses) × (cached id g ≡ some st) × (pod_status pod st ≡ ok s)

abbrev pub HasRedis : Gateway → Type 0
HasRedis g = is_some g.redis ≡ true

on_redis-HasRedis : (f : Redis → Redis) (g : Gateway) → HasRedis g → HasRedis (on_redis f g)
unfolding on_redis
on_redis-HasRedis f g h = ground arith

note_running-HasRedis :
    (id pool : Text) (g : Gateway) → HasRedis g → HasRedis (note_running id pool g)
unfolding note_running count on_redis
note_running-HasRedis id pool g h = ground arith

note_end-HasRedis :
    (good : Bool) (id pool : Text) (g : Gateway) → HasRedis g → HasRedis (note_end good id pool g)
unfolding note_end count on_redis
note_end-HasRedis good id pool g h = ground arith

lose-HasRedis :
    (s : PodState) (id pool : Text) (g : Gateway) → HasRedis g → HasRedis (lose s id pool g)
unfolding lose count on_redis
lose-HasRedis s id pool g h = ground arith

note_lost-HasRedis : (id pool : Text) (g : Gateway) → HasRedis g → HasRedis (note_lost id pool g)
unfolding note_lost
note_lost-HasRedis id pool g h = elim (Option-cases g.redis) [
  | inl hr ↦ cc
  | inr (r, hr) ↦
      rw (note_lost-lose id pool g r hr) (lose-HasRedis (current_status id r) id pool g h)
]

module _ (untar : Text → List (Text × Text)) (builder : PodRequest → Result Builder) where
  ended-HasRedis :
      (pod : PodRequest) (id pool logs : Text) (g : Gateway)
      → HasRedis g
      → HasRedis (ended untar builder pod id pool logs g).1
  unfolding ended ◌>>=◌ lift modify pure
  ended-HasRedis pod id pool logs g h =
      lift->>=-cases (λ m. HasRedis m.1) (builder pod) _ g (λ e. h)
        (λ b _.
          lift->>=-cases (λ m. HasRedis m.1) (process_logs (untar logs) b) _ g (λ e. h)
            (λ b' _.
              let h' = note_end-HasRedis (phase_of_codes b') id pool g h in
              lift->>=-cases (λ m. HasRedis m.1)
                (of_codes (or_empty pod.init_containers) b'.init_containers) _ _ (λ e. h')
                (λ is _.
                  lift->>=-cases (λ m. HasRedis m.1) (of_codes pod.containers b'.containers) _ _
                    (λ e. h') (λ cs _. h'))))

  at_end-HasRedis :
      (pod : PodRequest) (id pool logs : Text) (g : Gateway)
      → HasRedis g
      → HasRedis (at_end untar builder pod id pool logs g).1
  unfolding at_end ◌>>=◌ modify pure
  at_end-HasRedis pod id pool [] g h = note_lost-HasRedis id pool g h
  at_end-HasRedis pod id pool (c ∷ t) g h = ended-HasRedis pod id pool (c ∷ t) g h

  statuses_of-HasRedis :
      (pod : PodRequest) (id pool : Text) (s : JobStatus) (phase : Phase) (g : Gateway)
      → HasRedis g
      → HasRedis (statuses_of untar builder pod id pool s phase g).1
  unfolding statuses_of ◌>>=◌ modify pure
  statuses_of-HasRedis pod id pool s pending g h = on_redis-HasRedis _ g h
  statuses_of-HasRedis pod id pool s running g h = note_running-HasRedis id pool g h
  statuses_of-HasRedis pod id pool s unknown g h = h
  statuses_of-HasRedis pod id pool s succeeded g h = at_end-HasRedis pod id pool s.logs_tarball g h
  statuses_of-HasRedis pod id pool s failed g h = at_end-HasRedis pod id pool s.logs_tarball g h

cached-hset_statuses :
    (id : Text) (st : Statuses) (g : Gateway)
    → HasRedis g
    → cached id (on_redis (hset_statuses id st) g) ≡ some st
unfolding cached on_redis hset_statuses
cached-hset_statuses id st g h = elim (Option-cases g.redis) [
  | inl hr ↦ cc
  | inr (r, hr) ↦ rw (hr) (simp (dict_laws))
]

finish-Settles :
    (pod : PodRequest) (id : Text) (phase : Phase) (st : Statuses) (g : Gateway)
    → is_terminal phase ≡ true
    → HasRedis g
    → Settles pod id (finish pod id phase st g)
unfolding finish conclude_report ◌>>=◌ modify pure lift
finish-Settles pod id phase st g ht h = elim (Bool-cases (nat_beq (length st.containers) 0)) [
  | inl hb ↦ rw (hb) (λ s q. cc)
  | inr hb ↦
      rw (hb, ht)
        (lift->>=-cases (Settles pod id) (pod_status pod st) _ _ (λ e s q. cc)
          (λ s hs s' q.
            let same : s ≡ s' = cc in (st, cached-hset_statuses id st g h, hs ∙ ap ok same)))
]

module _ (untar : Text → List (Text × Text)) (builder : PodRequest → Result Builder)
    (print : Data → Text) where
  conclude-Settles :
      (pod : PodRequest) (id pool : Text) (code : ℕ) (js : JobStatus) (g : Gateway)
      → is_terminal js.phase ≡ true
      → HasRedis g
      → Settles pod id (
          conclude untar builder print pod id pool
            (got (record { status_code = code; data_ = status js }))
            g)
  unfolding conclude ◌>>=◌ modify pure lift job_status
  conclude-Settles pod id pool code js g ht h =
      lift->>=-cases (Settles pod id) (raise_for_status print _) _ g (λ e s q. cc)
        (λ u _.
          lift->>=-cases (Settles pod id) (statuses_of untar builder pod id pool js js.phase g).0 _
            _ (λ e s q. cc)
            (λ st _.
              finish-Settles pod id js.phase st _ ht
                (statuses_of-HasRedis untar builder pod id pool js js.phase g h)))

get_pod_status-cached :
    (untar : Text → List (Text × Text)) (builder : PodRequest → Result Builder)
    (print : Data → Text) (attempts : ℕ) (send : ℕ → Text → Outcome) (pod : PodRequest)
    (id pool : Text) (st : Statuses) (g : Gateway) (s : PodStatus)
    → jobid pod ≡ ok id
    → retrieve_pool_from_tolerations pod.tolerations ≡ ok pool
    → cached id g ≡ some st
    → pod_status pod st ≡ ok s
    → get_pod_status untar builder print attempts send pod g ≡ (ok (some s), g)
unfolding get_pod_status answer ◌>>=◌ lift gets pure
get_pod_status-cached untar builder print attempts send pod id pool st g s hi hp hc hs =
    rw (hi, continue, hp, continue, hc, answer, hs, continue)

-- With Redis and nothing cached for the job, whose name and pool are known, once the provider has
-- answered `succeeded` or `failed` and `get_pod_status` has returned a status, a call that follows
-- returns the same status and leaves the state as it is, whatever would become of its requests.
pub get_pod_status_settled :
    (untar : Text → List (Text × Text)) (builder : PodRequest → Result Builder)
    (print : Data → Text) (attempts : ℕ) (send : ℕ → Text → Outcome) (pod : PodRequest)
    (id pool : Text) (code : ℕ) (js : JobStatus) (g g' : Gateway) (s : PodStatus)
    (send' : ℕ → Text → Outcome)
    → HasRedis g
    → cached id g ≡ none
    → jobid pod ≡ ok id
    → retrieve_pool_from_tolerations pod.tolerations ≡ ok pool
    → poll attempts (λ i. send i (subject g.nats_subject (codes "status") id)) 0 none
      ≡ ok (got (record { status_code = code; data_ = status js }))
    → is_terminal js.phase ≡ true
    → get_pod_status untar builder print attempts send pod g ≡ (ok (some s), g')
    → get_pod_status untar builder print attempts send' pod g' ≡ (ok (some s), g')
unfolding get_pod_status answer ◌>>=◌ lift gets fetch pure
get_pod_status_settled untar builder print attempts send pod id pool code js g g' s send' h hm hi hp
      hq ht hm' =
    let settled : Settles pod id (get_pod_status untar builder print attempts send pod g) =
      rw (hi, continue, hp, continue, hm, answer, hq, continue)
        (conclude-Settles untar builder print pod id pool code js g ht h) in
    let (st, hc, hst) = settled s (ap (λ (m : Result (Option PodStatus) × Gateway). m.0) hm') in
    get_pod_status-cached untar builder print attempts send' pod id pool st g' s hi hp
      (ap (λ (m : Result (Option PodStatus) × Gateway). cached id m.1) (sym hm') ∙ hc) hst
