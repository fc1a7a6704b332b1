-- ===== src/Gateway/Restart.antt =====
-- `config_callback` and `__init__` of natsprovider/NatsGateway.py, for a gateway that restarts.
use interlink_condorce_plugi.Prelude.{
  ◌≡◌, refl, ap, sym, ◌∙◌, inl, inr, Bool-cases, ◌==◌, none, Text, List, [], ◌∷◌, nat_eq, list_eq,
  some, Result, ok, err,
}
use interlink_condorce_plugi.Prelude.Dicts.{Dict, put}
use interlink_condorce_plugi.BuildConfig.{BuildConfig, BuildConfigJson, model_dump_json, from_json}
use interlink_condorce_plugi.Subjects.{last_token}
use interlink_condorce_plugi.Gateway.{Gateway, Redis, init, read_configs, on_redis, config_callback}

-- a configuration without the name of the file that it was read from, and all of a dict
abbrev pub without_file : BuildConfig → BuildConfig
without_file c = record c { input_toml_filename = none }

abbrev pub without_files : Dict Text BuildConfig → Dict Text BuildConfig
without_files [] = []
without_files ((pool, c) ∷ d) = (pool, without_file c) ∷ without_files d

without_files-read_configs :
    (d : Dict Text BuildConfigJson) → read_configs d ≡ without_files (read_configs d)
unfolding read_configs from_json
without_files-read_configs [] = refl
without_files-read_configs ((pool, json) ∷ d) =
    ap (λ (l : Dict Text BuildConfig). (pool, from_json json) ∷ l) (without_files-read_configs d)

read_configs-put :
    (d : Dict Text BuildConfigJson) (pool : Text) (c : BuildConfig)
    → read_configs (put d pool (model_dump_json c)) ≡ put (read_configs d) pool (without_file c)
unfolding put read_configs model_dump_json from_json
read_configs-put [] pool c = refl
read_configs-put ((p, json) ∷ d) pool c = elim (Bool-cases (p == pool)) [
  | inl same ↦ rw same refl
  | inr other ↦
      rw other
        (ap (λ (l : Dict Text BuildConfig). (p, from_json json) ∷ l) (read_configs-put d pool c))
]

without_files-put :
    (d : Dict Text BuildConfig) (pool : Text) (c : BuildConfig)
    → without_files (put d pool c) ≡ put (without_files d) pool (without_file c)
unfolding put
without_files-put [] pool c = refl
without_files-put ((p, b) ∷ d) pool c = elim (Bool-cases (p == pool)) [
  | inl same ↦ rw same refl
  | inr other ↦
      rw other
        (ap (λ (l : Dict Text BuildConfig). (p, without_file b) ∷ l) (without_files-put d pool c))
]

-- Redis holds the configurations that the gateway holds, without the names of their files
abbrev pub IsStored : Gateway → Type 0
IsStored g =
    (r : Redis) × (g.redis ≡ some r)
    × (read_configs r.build_configs ≡ without_files g.build_configs)

-- the messages of a sequence, one after the other
unfoldable pub receive : List (Text × Result BuildConfig) → Gateway → Gateway
unfolding config_callback
receive [] g = g
receive ((subject_, config) ∷ messages) g = receive messages (config_callback subject_ config g).1

config_callback-IsStored :
    (subject_ : Text) (config : Result BuildConfig) (g : Gateway)
    → IsStored g
    → IsStored (config_callback subject_ config g).1
unfolding config_callback on_redis
config_callback-IsStored subject_ (err e) g h = h
config_callback-IsStored subject_ (ok config) g (r, hr, same) =
    let pool = last_token subject_ in
    rw hr (
      _,
      refl,
      read_configs-put r.build_configs pool config
          ∙ ap (λ d. put d pool (without_file config)) same
          ∙ sym (without_files-put g.build_configs pool config),
    )

receive-IsStored :
    (messages : List (Text × Result BuildConfig)) (g : Gateway)
    → IsStored g
    → IsStored (receive messages g)
unfolding receive
receive-IsStored [] g h = h
receive-IsStored ((subject_, config) ∷ messages) g h =
    receive-IsStored messages _ (config_callback-IsStored subject_ config g h)

-- After any sequence of configuration messages, valid and invalid ones, a gateway that has run with
-- Redis and restarts with it has the configurations that it had, less the names of the files that they
-- were read from.
pub restart_build_configs :
    (nats_subject : Text) (r : Redis) (messages : List (Text × Result BuildConfig))
    → let g = receive messages (init nats_subject (some r)) in
      (init g.nats_subject g.redis).build_configs ≡ without_files g.build_configs
unfolding init
restart_build_configs nats_subject r messages =
    let started = without_files-read_configs r.build_configs in
    let (q, hq, same) = receive-IsStored messages (init nats_subject (some r)) (r, refl, started) in
    rw hq same
