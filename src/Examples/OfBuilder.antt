-- ===== src/Examples/OfBuilder.antt =====
-- The theorems on natsprovider/apptainer_cmd_builder, applied to a small pod and a job of one container.
use interlink_condorce_plugi.Prelude.{
  ℕ, ◌≤◌, ◌≡◌, ◌≢◌, refl, Text, codes, List, [], ◌∷◌, ◌++◌, map, Option, none, some, Bool, true,
  false, Result, ok, err, all, join, split_at, keep, arith, nat_eq, list_eq,
}
use interlink_condorce_plugi.Prelude.Dicts.{Dict, get, keys}
use interlink_condorce_plugi.Prelude.Format.{is_nonempty, splitlines, lines_from}
use interlink_condorce_plugi.BuildConfig.{
  BaseVolumeConfig, base_volume_config, container_spec_config, host,
}
use interlink_condorce_plugi.Apptainer.Volumes.{Volume, Kind, FileSpec, file_path}
use interlink_condorce_plugi.Apptainer.Volumes.Mounts.{
  VolumeBind, MountType, mount_static, bind_host_path,
}
use interlink_condorce_plugi.Apptainer.Volumes.Binding.{mount_static-file_path}
use interlink_condorce_plugi.Apptainer.Network.{disabled}
use interlink_condorce_plugi.Apptainer.Containers.{ContainerSpec}
use interlink_condorce_plugi.Apptainer.Containers.Shell.{is_safe, run_script, read_words, between}
use interlink_condorce_plugi.Apptainer.Containers.Quoting.{run_script-read_words}
use interlink_condorce_plugi.Apptainer.Builder.{Job}
use interlink_condorce_plugi.Apptainer.Builder.Template.{Parts, template}
use interlink_condorce_plugi.Apptainer.Builder.Dump.{parts, dump}
use interlink_condorce_plugi.Apptainer.Builder.Squeeze.{NoBlankRun, dump-lines}
use interlink_condorce_plugi.Apptainer.FromKubernetes.{
  VolumeMount, PodContainer, Place, pod_volume, cache, unknown, make_volume, make_empty_dir,
}
use interlink_condorce_plugi.Apptainer.FromKubernetes.Translation.{mount_one, container_spec}
use interlink_condorce_plugi.Apptainer.FromKubernetes.Sharing.{
  all_mounts_of, volume_named, mount_one-shared,
}
use interlink_condorce_plugi.Apptainer.FromKubernetes.Failures.{container_spec-read_only}
use interlink_condorce_plugi.Apptainer.FromKubernetes.Cleaning.{
  Json, Fields, IsClean, clean, clean-IsClean,
}
use interlink_condorce_plugi.Examples.{build_config}

abbrev settings : BaseVolumeConfig
settings = record {
  fuse_mode = host;
  fuse_enabled_on_host = true;
  scratch_area = codes "/tmp";
  additional_directories_in_path = [];
  cachedir = codes "/tmp/cache";
}

-- the random name of a volume, here the same as that of the place
unfoldable fresh : Place → Text
fresh (pod_volume name) = name
fresh (cache container) = container
fresh (unknown container mount_path) = mount_path

abbrev text_file : Dict Text FileSpec
text_file = (codes "a.txt", record { content = codes "x"; executable = false }) ∷ []

abbrev static_volume : Volume
static_volume = make_volume settings (codes "v") (Kind.static text_file text_file) none none none

mount_static-file_path_example :
    (binds : List VolumeBind) × (mount_static static_volume text_file text_file
        (codes "/etc/c")
        true
        none
      ≡ ok binds)
    × (map bind_host_path binds
        ≡ map (file_path static_volume (codes ".ascii")) (keys text_file)
          ++ map (file_path static_volume (codes ".binary")) (keys text_file))
mount_static-file_path_example =
    mount_static-file_path static_volume (codes "/etc/c") true text_file text_file

bare : all is_safe (codes "sh") ≡ true
unfolding all codes is_safe
bare = refl

run_script-read_words_example :
    (line : Text) × (run_script (codes "sh") (codes "-c" ∷ codes "echo 'a b'" ∷ [])
      ≡ codes "#!/bin/sh\n" ++ line)
    × (read_words between line ≡ some (codes "sh" ∷ codes "-c" ∷ codes "echo 'a b'" ∷ []))
unfolding codes
run_script-read_words_example =
    run_script-read_words b's' (codes "h") (codes "-c" ∷ codes "echo 'a b'" ∷ []) bare

abbrev main : ContainerSpec
main = record {
  uid = codes "run-main";
  entrypoint = some (codes "sh");
  args = codes "-c" ∷ codes "true" ∷ [];
  image = codes "alpine";
  default_format = codes "docker";
  environment = (codes "A", codes "1") ∷ [];
  volume_binds = [];
  config = container_spec_config build_config;
  writable_tmpfs = true;
  no_umask = true;
  no_eval = true;
  memory = none;
  memory_reservation = none;
  working_dir = none;
}

abbrev job : Job
job = record {
  uid = codes "a";
  containers = main ∷ [];
  init_containers = [];
  additional_volumes = [];
  additional_directories_in_path = [];
  scratch_area = codes "/tmp";
  description = [];
  cachedir = codes "/tmp/cache";
  fuse_sleep_seconds = 5;
  network_config = disabled;
}

built : (p : Parts) × (parts (λ vs. vs) (λ bs. bs) (λ t. t) (codes "r") none job ≡ ok p)
unfolding parts interlink_condorce_plugi.Apptainer.Builder.Dump.build_environment_files
    interlink_condorce_plugi.Apptainer.Containers.Image.initialize
    interlink_condorce_plugi.Apptainer.Containers.Image.env_dict
    interlink_condorce_plugi.Prelude.list_beq
    interlink_condorce_plugi.Apptainer.Builder.Dump.build_volume_files
    interlink_condorce_plugi.Apptainer.Builder.Dump.exec_init_containers
    interlink_condorce_plugi.Apptainer.Builder.Dump.exec_containers
    interlink_condorce_plugi.Apptainer.Containers.exec
    interlink_condorce_plugi.Apptainer.Builder.Dump.cleanup_volume_files
built = (_, refl)

dump-lines_example :
    (lines : List Text) × (dump
        (λ vs. vs)
        (λ bs. bs)
        (λ t. t)
        (codes "r")
        none
        (codes "1")
        (codes "t")
        job
      ≡ ok (join (codes "\n") lines))
    × NoBlankRun lines
    × (keep is_nonempty lines
        ≡ keep is_nonempty (split_at b'\n' (template (codes "1") (codes "t") job built.0)))
dump-lines_example =
    dump-lines (λ vs. vs) (λ bs. bs) (λ t. t) (codes "r") none (codes "1") (codes "t") job built.0
      built.1

-- two containers that mount the volume `d`
abbrev mounted : VolumeMount
mounted = record {
  name = codes "d";
  mount_path = codes "/data";
  sub_path = none;
  read_only = some true;
}

abbrev container_named : Text → PodContainer
container_named name = record {
  name = name;
  command = none;
  args = none;
  image = codes "alpine";
  env = none;
  volume_mounts = some (mounted ∷ []);
}

abbrev pod_containers : List PodContainer
pod_containers = container_named (codes "a") ∷ container_named (codes "b") ∷ []

abbrev pod_volumes : Dict Text Volume
pod_volumes =
    (codes "d", volume_named build_config settings fresh [] none pod_containers (codes "d")) ∷ []

twice : 2 ≤ all_mounts_of (codes "d") pod_containers
unfolding interlink_condorce_plugi.Prelude.list_beq codes
twice = omega arith

there :
    get pod_volumes (codes "d")
    ≡ some (volume_named build_config settings fresh [] none pod_containers (codes "d"))
unfolding get interlink_condorce_plugi.Prelude.list_beq codes
there = refl

mount_one-shared_example :
    mount_one build_config settings fresh pod_volumes none (container_named (codes "b")) mounted
    ≡ ok (
        record {
          volume =
              make_empty_dir (base_volume_config build_config) (fresh (pod_volume (codes "d")));
          container_path = codes "/data";
          read_only = true;
          host_path_override = none;
          mount_type = MountType.bind;
          sub_path = none;
        }
        ∷ [])
mount_one-shared_example =
    mount_one-shared build_config settings fresh pod_volumes none pod_containers (codes "d")
      (container_named (codes "b")) mounted twice there refl

abbrev fuse_volume : Volume
fuse_volume = make_volume settings (codes "d") (Kind.fuse (codes "rclone")) none none none

found : get ((codes "d", fuse_volume) ∷ []) (codes "d") ≡ some fuse_volume
unfolding get interlink_condorce_plugi.Prelude.list_beq codes
found = refl

is_fuse : fuse_volume.kind ≡ Kind.fuse (codes "rclone")
unfolding make_volume
is_fuse = refl

container_spec-read_only_example :
    container_spec build_config settings fresh
      ((codes "d", fuse_volume) ∷ [])
      none
      false
      (codes "run-")
      (container_named (codes "a"))
    ≢ ok main
container_spec-read_only_example =
    container_spec-read_only build_config settings fresh ((codes "d", fuse_volume) ∷ []) none
      (codes "run-") (container_named (codes "a")) [] [] mounted fuse_volume (codes "rclone") refl
      found is_fuse refl main

-- `{"a": None, "b": {"c": None}}`
abbrev document : Fields
document = Fields.field (codes "a") Json.null (
    Fields.field (codes "b") (Json.dict (Fields.field (codes "c") Json.null Fields.empty))
      Fields.empty)

clean-IsClean_example :
    IsClean (clean document)
    × (IsClean document → clean document ≡ document)
    × (clean (clean document) ≡ clean document)
clean-IsClean_example = clean-IsClean document

-- one end for a carriage return with its line feed, and no line after the last end
splitlines_ends :
    splitlines (b'a' ∷ 13 ∷ 10 ∷ b'b' ∷ 10 ∷ 10 ∷ b'c' ∷ 13 ∷ [])
    ≡ codes "a" ∷ codes "b" ∷ [] ∷ codes "c" ∷ []
unfolding splitlines lines_from codes
splitlines_ends = refl
