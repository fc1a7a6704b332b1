-- ===== src/Gateway/Reports.antt =====
-- The containers in what `get_pod_status` of natsprovider/NatsGateway.py reports.
use interlink_condorce_plugi.Prelude.{
  ℕ, ◌≡◌, ◌∙◌, refl, ap, Text, List, [], ◌∷◌, Option, none, some, arith, nat_eq, list_eq, Result,
  ok, map, Result-cases, Bool-cases, nat_beq, length, Option-cases, inl, inr,
}
use interlink_condorce_plugi.Utils.Responses.{
  Data, JobStatus, Phase, pending, running, succeeded, failed, unknown, raise_for_status,
}
use interlink_condorce_plugi.Interlink.{PodRequest, PodStatus, ContainerStatus, ContainerStates}
use interlink_condorce_plugi.Action.{
  ◌>>=◌, lift, gets, modify, pure, Returns, Returns-continue, Returns-ok, continue,
}
use interlink_condorce_plugi.Apptainer.Logs.{Builder, Container, process_logs}
use interlink_condorce_plugi.Gateway.{Gateway, Statuses, jobid, retrieve_pool_from_tolerations}
use interlink_condorce_plugi.Gateway.Status.{
  same_for_all, or_empty, uniform, of_code, of_codes, poll, gone, got, Polled, job_status,
}
use interlink_condorce_plugi.Gateway.PodStatus.{
  ended, at_end, statuses_of, failure, finish, conclude_report, conclude, fetch, pod_status,
  get_pod_status, answer, cached,
}
use interlink_condorce_plugi.Provider.Resync.{Outcome}

abbrev pub names_of : List ContainerStatus → List Text
names_of = map λ c. c.name

-- the statuses name the containers and the init containers of the pod, in its order
abbrev pub Reports : PodRequest → Statuses → Type 0
Reports pod st =
    (names_of st.containers ≡ pod.containers)
    × (names_of st.init_containers ≡ or_empty pod.init_containers)

names_of-same_for_all :
    (state : ContainerStates) (ns : List Text) → names_of (same_for_all state ns) ≡ ns
names_of-same_for_all state [] = refl
names_of-same_for_all state (n ∷ ns) = ap (λ l. n ∷ l) (names_of-same_for_all state ns)

uniform-Reports : (s t : ContainerStates) (pod : PodRequest) → Reports pod (uniform s t pod)
unfolding uniform
uniform-Reports s t pod = (names_of-same_for_all t _, names_of-same_for_all s _)

names_of-of_codes :
    (ns : List Text) (cs : List Container) (l : List ContainerStatus)
    → of_codes ns cs ≡ ok l
    → names_of l ≡ ns
unfolding of_codes
names_of-of_codes [] cs l h = cc
names_of-of_codes (n ∷ ns) [] l h = cc
names_of-of_codes (n ∷ ns) (c ∷ cs) l h = elim (Option-cases c.return_code) [
  | inl hc ↦ cc
  | inr (code, hc) ↦ elim (Result-cases (of_codes ns cs)) [
    | inr (e, hr) ↦ cc
    | inl (rest, hr) ↦
        let same : record { name = n; state = of_code code } ∷ rest ≡ l = cc in
        rw (← same) (ap (λ ms. n ∷ ms) (names_of-of_codes ns cs rest hr))
  ]
]

module _ (untar : Text → List (Text × Text)) (builder : PodRequest → Result Builder) where
  ended-Reports :
      (pod : PodRequest) (id pool logs : Text) (g : Gateway)
      → Returns (Reports pod) (ended untar builder pod id pool logs g).0
  unfolding ended ◌>>=◌ lift modify pure
  ended-Reports pod id pool logs g = Returns-continue _ (builder pod) _ g (λ b _.
      Returns-continue _ (process_logs (untar logs) b) _ g (λ b' _.
        Returns-continue _ (of_codes (or_empty pod.init_containers) b'.init_containers) _ _
          (λ is hi. Returns-continue _ (of_codes pod.containers b'.containers) _ _ (λ cs hc.
            Returns-ok (Reports pod) _
              (names_of-of_codes _ _ cs hc, names_of-of_codes _ _ is hi)))))

  at_end-Reports :
      (pod : PodRequest) (id pool logs : Text) (g : Gateway)
      → Returns (Reports pod) (at_end untar builder pod id pool logs g).0
  unfolding at_end ◌>>=◌ modify pure failure
  at_end-Reports pod id pool [] g = Returns-ok (Reports pod) _ (uniform-Reports _ _ pod)
  at_end-Reports pod id pool (c ∷ t) g = ended-Reports pod id pool (c ∷ t) g

  statuses_of-Reports :
      (pod : PodRequest) (id pool : Text) (s : JobStatus) (phase : Phase) (g : Gateway)
      → Returns (Reports pod) (statuses_of untar builder pod id pool s phase g).0
  unfolding statuses_of ◌>>=◌ modify pure failure
  statuses_of-Reports pod id pool s pending g = Returns-ok (Reports pod) _ (uniform-Reports _ _ pod)
  statuses_of-Reports pod id pool s running g = Returns-ok (Reports pod) _ (uniform-Reports _ _ pod)
  statuses_of-Reports pod id pool s unknown g = Returns-ok (Reports pod) _ (uniform-Reports _ _ pod)
  statuses_of-Reports pod id pool s succeeded g = at_end-Reports pod id pool s.logs_tarball g
  statuses_of-Reports pod id pool s failed g = at_end-Reports pod id pool s.logs_tarball g

-- what is reported, if anything, names the containers and the init containers of the pod
abbrev pub ReportsPod : PodRequest → Option PodStatus → Type 0
ReportsPod pod o =
    (s : PodStatus)
    → o ≡ some s
    → (names_of s.containers ≡ pod.containers)
      × (names_of s.init_containers ≡ or_empty pod.init_containers)

pod_status_statuses :
    (pod : PodRequest) (st : Statuses) (s : PodStatus)
    → pod_status pod st ≡ ok s
    → (s.containers ≡ st.containers) × (s.init_containers ≡ st.init_containers)
unfolding pod_status
pod_status_statuses pod st s h = ground arith

pod_status-Reports :
    (pod : PodRequest) (st : Statuses) (s : PodStatus)
    → Reports pod st
    → pod_status pod st ≡ ok s
    → ReportsPod pod (some s)
pod_status-Reports pod st s h hs s' e =
    let same : s ≡ s' = cc in
    let copied = pod_status_statuses pod st s' (hs ∙ ap ok same) in
    (ap names_of copied.0 ∙ h.0, ap names_of copied.1 ∙ h.1)

finish-Reports :
    (pod : PodRequest) (id : Text) (phase : Phase) (st : Statuses) (g : Gateway)
    → Reports pod st
    → Returns (ReportsPod pod) (finish pod id phase st g).0
unfolding finish conclude_report ◌>>=◌ modify pure lift
finish-Reports pod id phase st g h = elim (Bool-cases (nat_beq (length st.containers) 0)) [
  | inl hb ↦ rw (hb) (Returns-ok (ReportsPod pod) none (λ s e. cc))
  | inr hb ↦ rw (hb) (
      Returns-continue (ReportsPod pod) (pod_status pod st) _ _
        (λ s hs. Returns-ok (ReportsPod pod) (some s) (pod_status-Reports pod st s h hs)))
]

module _ (untar : Text → List (Text × Text)) (builder : PodRequest → Result Builder)
    (print : Data → Text) where
  conclude-Reports :
      (pod : PodRequest) (id pool : Text) (polled : Polled) (g : Gateway)
      → Returns (ReportsPod pod) (conclude untar builder print pod id pool polled g).0
  unfolding conclude ◌>>=◌ modify pure lift
  conclude-Reports pod id pool gone g = Returns-ok (ReportsPod pod) none (λ s e. cc)
  conclude-Reports pod id pool (got r) g =
      Returns-continue (ReportsPod pod) (raise_for_status print r) _ _ (λ u _.
        Returns-continue (ReportsPod pod) (job_status r.data_) _ _ (λ s _.
          Returns-continue (ReportsPod pod) (statuses_of untar builder pod id pool s s.phase g).0 _
            _
            (λ st hst.
              finish-Reports pod id s.phase st _
                (statuses_of-Reports untar builder pod id pool s s.phase g st hst))))

-- If the job name is known and has no cached statuses and `get_pod_status` returns a status, in
-- whatever phase, that status names the containers and the init containers of the pod, all of them
-- and in its order.
pub get_pod_status-Reports :
    (untar : Text → List (Text × Text)) (builder : PodRequest → Result Builder)
    (print : Data → Text) (attempts : ℕ) (send : ℕ → Text → Outcome) (pod : PodRequest) (id : Text)
    (g : Gateway) (s : PodStatus)
    → jobid pod ≡ ok id
    → cached id g ≡ none
    → (get_pod_status untar builder print attempts send pod g).0 ≡ ok (some s)
    → (names_of s.containers ≡ pod.containers)
      × (names_of s.init_containers ≡ or_empty pod.init_containers)
unfolding get_pod_status answer ◌>>=◌ lift gets fetch
get_pod_status-Reports untar builder print attempts send pod id g s named missing h =
    let reports : Returns (ReportsPod pod)
        (get_pod_status untar builder print attempts send pod g).0 =
      rw (named, continue)
        (Returns-continue (ReportsPod pod) (retrieve_pool_from_tolerations pod.tolerations) _ g
          (λ pool _. rw (missing) (
            Returns-continue (ReportsPod pod) (poll attempts _ 0 none) _ g
              (λ polled _. conclude-Reports untar builder print pod id pool polled g)))) in
    reports (some s) h s refl
