-- ===== src/Provider/Publishing.antt =====
-- `maybe_refresh_build_config` and `maybe_publish_resources` of natsprovider/BaseNatsProvider.py: the
-- messages that a leader publishes about its pool. Each gives the new state and what is published.
use interlink_condorce_plugi.Prelude.{
  ℕ, suc, ◌≡◌, ◌≢◌, Text, codes, List, [], ◌∷◌, ◌++◌, Option, none, some, Bool, true, false, get_or,
  contains, nat_eq, list_eq, if◌then◌else◌, arith, ◌<◌,
}
use interlink_condorce_plugi.Prelude.Dicts.{Dict}
use interlink_condorce_plugi.Utils.Resources.{Resources, Value, to_kubernetes}
use interlink_condorce_plugi.BuildConfig.{BuildConfig, BuildConfigJson, model_dump_json}
use interlink_condorce_plugi.Subjects.{subject}
use interlink_condorce_plugi.Provider.{Provider, is_due, tick}

pub data Message : Type 0 where
  config : (subject_ : Text) → BuildConfigJson → Message
  resources : (subject_ : Text) → (quotas : Dict Text Value) → (labels taints : List Text) → Message

-- `reload` and `customize_build_config` are arguments: the first reads a file, and subclasses
-- override the second.
unfoldable pub maybe_refresh_build_config :
    (reload customize : BuildConfig → BuildConfig) → ℕ → Provider → Provider × List Message
unfolding is_due tick subject model_dump_json
maybe_refresh_build_config reload customize now p =
    if is_due now (codes "build_config") 60 p
    then (let fresh = reload p.build_config in
        (
          record (tick now (codes "build_config") p) { build_config = fresh },
          config (subject p.nats_subject (codes "config") p.nats_pool)
                (model_dump_json (customize fresh))
              ∷ [],
        ))
    else (p, [])

-- `a or b or await self.get_allocatable_…()`, where the last is None: no provider of the repository
-- overrides it. None, the empty text and zero are falsy.
unfoldable pub or_text : Option Text → Option Text → Option Text
or_text (some (c ∷ t)) b = some (c ∷ t)
or_text a (some (c ∷ t)) = some (c ∷ t)
or_text a b = none

unfoldable pub or_int : Option ℕ → Option ℕ → Option ℕ
or_int (some (suc n)) b = some (suc n)
or_int a (some (suc n)) = some (suc n)
or_int a b = none

-- DEFAULT_ALLOCATABLE_CPU and the others of natsprovider/configuration.py
pub record Defaults : Type 0 where
  pub default_cpu : Text
  pub default_memory : Text
  pub default_pods : ℕ
  pub default_gpus : ℕ

-- the quotas that are published, and then stay in the build configuration
unfoldable pub resolve : Defaults → (configured declared : Resources) → Resources
unfolding or_text or_int
resolve d configured declared = record {
  cpu = some (get_or (or_text configured.cpu declared.cpu) d.default_cpu);
  memory = some (get_or (or_text configured.memory declared.memory) d.default_memory);
  gpus = some (get_or (or_int configured.gpus declared.gpus) d.default_gpus);
  pods = some (get_or (or_int configured.pods declared.pods) d.default_pods);
}

or_int_zero : (a b : Option ℕ) (d : ℕ) → some (get_or (or_int a b) d) ≡ some 0 → d ≡ 0
unfolding or_int
or_int_zero a b d h = ground arith

or_int_again :
    (a b : Option ℕ) (d : ℕ)
    → get_or (or_int (some (get_or (or_int a b) d)) b) d ≡ get_or (or_int a b) d
unfolding or_int
or_int_again a b d = ground arith

or_text_again :
    (a b : Option Text) (d : Text)
    → get_or (or_text (some (get_or (or_text a b) d)) b) d ≡ get_or (or_text a b) d
unfolding or_text
or_text_again a b d = ground arith

-- a warning is given once for each resource
unfoldable pub warn_if : Bool → Text → List Text → List Text
unfolding contains
warn_if true key warned = if contains warned key then warned else warned ++ key ∷ []
warn_if false key warned = warned

abbrev pub unset {ℓ} : {A : Type ℓ} → Option A → Bool
unset none = true
unset (some a) = false

unfoldable pub maybe_publish_resources : Defaults → ℕ → Provider → Provider × List Message
unfolding is_due tick subject resolve warn_if to_kubernetes
maybe_publish_resources d now p =
    if is_due now (codes "resources") 30 p
    then (let configured = p.build_config.resources in
        let declared = p.declared_resources in
        let rsrc = resolve d configured declared in
        let warned = warn_if (unset (or_int configured.pods declared.pods)) (codes "pods") (
          warn_if (unset (or_text configured.memory declared.memory)) (codes "memory") (
            warn_if (unset (or_text configured.cpu declared.cpu)) (codes "cpu")
              p.warned_on_unset_resources)) in
        (
          record (tick now (codes "resources") p) {
            build_config = record (p.build_config) { resources = rsrc };
            warned_on_unset_resources = warned;
          },
          resources (subject p.nats_subject (codes "resources") p.nats_pool) (to_kubernetes rsrc)
                p.build_config.node.labels p.build_config.node.taints
              ∷ [],
        ))
    else (p, [])

-- If the default numbers of pods and GPUs are positive, a zero is never published: a zero in the
-- configuration or on the command line counts as not given.
resolve_zero :
    (d : Defaults) (configured declared : Resources)
    → 0 < d.default_pods
    → 0 < d.default_gpus
    → ((resolve d configured declared).pods ≢ some 0)
      × ((resolve d configured declared).gpus ≢ some 0)
unfolding resolve
resolve_zero d configured declared hp hg = (
  λ e. omega (arith, or_int_zero configured.pods declared.pods d.default_pods e),
  λ e. omega (arith, or_int_zero configured.gpus declared.gpus d.default_gpus e),
)

-- What was published is published again at the next round, if the file is not read in between,
-- although the first round writes its result into the configuration.
resolve_again :
    (d : Defaults) (configured declared : Resources)
    → resolve d (resolve d configured declared) declared ≡ resolve d configured declared
unfolding resolve
resolve_again d configured declared = cc (
  or_text_again configured.cpu declared.cpu d.default_cpu,
  or_text_again configured.memory declared.memory d.default_memory,
  or_int_again configured.gpus declared.gpus d.default_gpus,
  or_int_again configured.pods declared.pods d.default_pods,
)
