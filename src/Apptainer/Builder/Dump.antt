-- ===== src/Apptainer/Builder/Dump.antt =====
-- The parts of the script that natsprovider/apptainer_cmd_builder/ApptainerCmdBuilder.py builds, and
-- `dump`.
use interlink_condorce_plugi.Prelude.{
  ℕ, ◌+◌, Text, codes, List, [], ◌∷◌, ◌++◌, map, Option, ◌&&◌, any, join, split_at, collect, Result,
  ok, ◌>>=◌, if◌then◌else◌,
}
use interlink_condorce_plugi.Prelude.Numbers.{decimal}
use interlink_condorce_plugi.Apptainer.Volumes
use interlink_condorce_plugi.Apptainer.Volumes.{Volume, Kind}
use interlink_condorce_plugi.Apptainer.Volumes.Mounts.{VolumeBind}
use interlink_condorce_plugi.Apptainer.Network.{proxy}
use interlink_condorce_plugi.Apptainer.Containers.{ContainerSpec, exec, log_path, return_code_path}
use interlink_condorce_plugi.Apptainer.Containers.Image
use interlink_condorce_plugi.Apptainer.Builder.{
  Job, archive_line, glue, is_fuse, output_line, tmp_lines, volumes_in, wait_lines,
}
use interlink_condorce_plugi.Apptainer.Builder.Template.{Parts, squeeze, template}

module _ (set_of : List Volume → List Volume) (bind_set : List VolumeBind → List VolumeBind)
    (encode : Text → List ℕ) (rndid : Text) (token : Option Text) where
  unfoldable pub volumes : Job → List Volume
  unfolding volumes_in
  volumes b = set_of (volumes_in (b.containers ++ b.init_containers) ++ b.additional_volumes)

  unfoldable pub build_environment_files : Job → Result Text
  unfolding join codes collect
  build_environment_files b = do
    ts ← collect (Image.initialize encode rndid token) (b.init_containers ++ b.containers)
    ok (join (codes "\n") ts)

  -- The copy of the log onto itself is the code's.
  unfoldable pub init_lines : Job → List ContainerSpec → Result (List Text)
  unfolding codes
  init_lines b [] = ok []
  init_lines b (c ∷ cs) = do
    command ← exec bind_set (proxy b.network_config) c
    rest ← init_lines b cs
    ok (
        command
        ∷ glue (codes "echo -n $? > " ∷ return_code_path c ∷ [])
        ∷ glue (codes "cp " ∷ log_path c ∷ codes " " ∷ log_path c ∷ [])
        ∷ rest)

  unfoldable pub exec_init_containers : Job → Result Text
  unfolding init_lines join codes
  exec_init_containers b = do ls ← init_lines b b.init_containers; ok (join (codes "\n") ls)

  unfoldable pub start_lines : Job → ℕ → List ContainerSpec → Result (List Text)
  unfolding decimal codes
  start_lines b i [] = ok []
  start_lines b i (c ∷ cs) = do
    command ← exec bind_set (proxy b.network_config) c
    rest ← start_lines b (i + 1) cs
    ok ((command ++ codes " &") ∷ glue (codes "pids[" ∷ decimal i ∷ codes "]=$!" ∷ []) ∷ rest)

  unfoldable pub exec_containers : Job → Result Text
  unfolding start_lines wait_lines output_line archive_line join codes
  exec_containers b = do
    started ← start_lines b 0 b.containers
    ok (
        join (codes "\n") (
          codes "pid=()"
          ∷ (started
              ++ (wait_lines 0 b.containers
                  ++ (map output_line b.containers ++ (archive_line b ∷ []))))))

  unfoldable pub build_volume_files : Job → Result Text
  unfolding volumes join codes collect
  build_volume_files b = do
    ts ← collect (Volumes.initialize encode) (volumes b)
    ok (join (codes "\n") ts)

  unfoldable pub cleanup_volume_files : Job → Result Text
  unfolding volumes any is_fuse tmp_lines join codes collect
  cleanup_volume_files b = do
    ts ← collect Volumes.finalize (volumes b)
    ok (
        join (codes "\n") (
          (if any (λ (v : Volume). v.fuse_enabled_on_host && is_fuse v) (volumes b)
            then glue (codes "sleep " ∷ decimal b.fuse_sleep_seconds ∷ codes ";\n" ∷ []) ∷ []
            else [])
          ++ (tmp_lines (b.containers ++ b.init_containers) ++ ts)))

  unfoldable pub parts : Job → Result Parts
  parts b = do
    environment_files ← build_environment_files b
    volume_files ← build_volume_files b
    init_commands ← exec_init_containers b
    commands ← exec_containers b
    cleanup_volumes ← cleanup_volume_files b
    ok (record {
      environment_files = environment_files;
      volume_files = volume_files;
      init_commands = init_commands;
      commands = commands;
      cleanup_volumes = cleanup_volumes;
    })

  -- `dump`
  unfoldable pub dump : (version application_token : Text) → Job → Result Text
  unfolding squeeze split_at join codes
  dump version application_token b = do
    p ← parts b
    ok (join (codes "\n") (squeeze (split_at b'\n' (template version application_token b p))))
