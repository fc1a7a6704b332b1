-- ===== src/Apptainer/Containers.antt =====
-- natsprovider/apptainer_cmd_builder/containers.py: the containers of a job, the arguments of apptainer
-- that they stand for, and the lines of the script that prepare and run them.
pub mod Shell
pub mod Quoting
pub mod Image
use interlink_condorce_plugi.Prelude.{
  ℕ, ◌+◌, Text, codes, List, [], ◌∷◌, ◌++◌, map, Option, none, some, Bool, true, false, ◌&&◌, ◌||◌,
  join, get_or, contains_text, starts_with, collect, nat_beq, Result, ok, err, ◌>>=◌, nat_eq,
  list_eq, if◌then◌else◌, ◌==◌,
}
use interlink_condorce_plugi.Prelude.Dicts.{Dict, merge}
use interlink_condorce_plugi.BuildConfig.{ContainerSpecConfig, TmpDirMode, bind, scratch, no_tmp}
use interlink_condorce_plugi.Prelude.Numbers.{decimal}
use interlink_condorce_plugi.Apptainer.Volumes.{Volume, sanitize_uid, upper}
use interlink_condorce_plugi.Prelude.Paths.{join_path}
use interlink_condorce_plugi.Apptainer.Volumes.Mounts.{VolumeBind, bind_text}

-- The fields that BuildConfig gives are those of `config`; the others have their defaults in the
-- class unless the translation of a pod sets them.
pub record ContainerSpec : Type 0 where
  pub uid : Text
  pub entrypoint : Option Text
  pub args : List Text
  pub image : Text
  pub default_format : Text
  pub environment : Dict Text Text
  pub volume_binds : List VolumeBind
  pub config : ContainerSpecConfig
  pub writable_tmpfs : Bool
  pub no_umask : Bool
  pub no_eval : Bool
  pub memory : Option ℕ
  pub memory_reservation : Option ℕ
  pub working_dir : Option Text

unfoldable pub tmp_dir : ContainerSpec → Text
unfolding join_path codes
tmp_dir c = join_path (join_path c.config.scratch_area (codes "tmp")) c.uid

unfoldable pub var_tmp_dir : ContainerSpec → Text
unfolding join_path codes
var_tmp_dir c = join_path (join_path c.config.scratch_area (codes "var-tmp")) c.uid

unfoldable pub workdir : ContainerSpec → Text
unfolding join_path codes
workdir c = join_path c.config.scratch_area (codes ".acb.cnt." ++ c.uid)

unfoldable pub log_path : ContainerSpec → Text
unfolding workdir
log_path c = join_path (workdir c) (c.uid ++ codes ".out")

unfoldable pub return_code_path : ContainerSpec → Text
unfolding workdir
return_code_path c = join_path (workdir c) (c.uid ++ codes ".status")

unfoldable pub env_file_path : ContainerSpec → Text
unfolding workdir
env_file_path c = join_path (workdir c) (codes ".env")

unfoldable pub executable_path : ContainerSpec → Text
unfolding workdir
executable_path c = join_path (workdir c) (codes "run")

unfoldable pub formatted_image : ContainerSpec → Text
unfolding contains_text codes
formatted_image c =
    if contains_text c.image (codes "://") || (c.default_format == codes "none")
    then c.image
    else c.default_format ++ (codes "://" ++ c.image)

unfoldable pub on : Bool → Text → List Text
on b arg = if b then arg ∷ [] else []

unfoldable pub with_number : Text → Option ℕ → List Text
unfolding decimal
with_number arg none = []
with_number arg (some n) = (arg ++ decimal n) ∷ []

unfoldable pub with_text : Text → Option Text → List Text
with_text arg none = []
with_text arg (some t) = (arg ++ t) ∷ []

-- the loop over the schema, in the order of the fields
unfoldable pub schema_flags : ContainerSpec → List Text
unfolding on with_number with_text codes
schema_flags c =
    on c.writable_tmpfs (codes "--writable-tmpfs")
    ++ (on c.config.fakeroot (codes "--fakeroot")
        ++ (on c.config.userns (codes "--userns")
            ++ (on c.config.sharens (codes "--sharens")
                ++ (on c.config.uts (codes "--uts")
                    ++ (on c.config.containall (codes "--containall")
                        ++ (on c.config.no_init (codes "--no-init")
                            ++ (on c.no_umask (codes "--no-umask")
                                ++ (on c.no_eval (codes "--no-eval")
                                    ++ (on c.config.no_home (codes "--no-home")
                                        ++ (on c.config.no_privs (codes "--no-privs")
                                            ++ (on c.config.nvidia_support (codes "--nv")
                                                ++ (with_number (codes "--memory ") c.memory
                                                    ++ (with_number (codes "--memory-reservation ")
                                                          c.memory_reservation
                                                        ++ (with_text (codes "--cwd ") c.working_dir
                                                            ++ (on c.config.cleanenv
                                                            (codes "--cleanenv")
                                                            ++ on c.config.unsquash
                                                            (codes "--unsquash"))))))))))))))))

unfoldable pub tmp_flags : ContainerSpec → List Text
unfolding tmp_dir var_tmp_dir codes
tmp_flags c = elim c.config.tmp_dir_mode [
  | bind ↦
      (codes "--bind " ++ (tmp_dir c ++ codes ":/tmp"))
      ∷ (codes "--bind " ++ (var_tmp_dir c ++ codes ":/var/tmp"))
      ∷ []
  | scratch ↦
      codes "--scratch /tmp" ∷ codes "--scratch /var/tmp" ∷ (codes "--workdir " ++ tmp_dir c) ∷ []
  | no_tmp ↦ []
]

-- an entrypoint that is not empty
unfoldable pub is_set : Option Text → Bool
is_set none = false
is_set (some []) = false
is_set (some (c ∷ t)) = true

unfoldable pub image_variable : ContainerSpec → Text
unfolding upper sanitize_uid codes
image_variable c = codes "IMAGE_" ++ upper (sanitize_uid c.uid)

abbrev pub continuation : Text
continuation = codes " \\\n    "

-- the words that follow the flags
unfoldable pub command_of : Option Text → List Text → List Text
unfolding codes
command_of none args =
    (join (codes " ") (map (λ a. codes "\"" ++ (a ++ codes "\"")) args) ++ codes " &> ") ∷ []
command_of (some e) args = codes "/mnt/apptainer_cmd_builder/run &> " ∷ []

unfoldable pub verb : Option Text → Text
unfolding codes
verb none = codes "run"
verb (some e) = codes "exec"

-- `set_of binds` is the order in which `set(binds)` is traversed
module _ (set_of : List VolumeBind → List VolumeBind) where
  unfoldable pub flags : ContainerSpec → Result (List Text)
  unfolding schema_flags env_file_path tmp_flags is_set executable_path codes collect
  flags c = do
    binds ← collect bind_text (set_of c.volume_binds)
    ok (
        schema_flags c
        ++ ((codes "--env-file " ++ env_file_path c)
            ∷ (tmp_flags c
                ++ (binds
                    ++ on (is_set c.entrypoint) (
                        codes "--bind "
                        ++ (executable_path c ++ codes ":/mnt/apptainer_cmd_builder/run"))))))

  -- `exec`; the command that leads to the network goes before it
  unfoldable pub exec : (proxy_cmd : List Text) → ContainerSpec → Result Text
  unfolding flags image_variable command_of verb join
  exec proxy_cmd c = do
    fs ← flags c
    ok (
        join continuation (
          proxy_cmd
          ++ (c.config.executable
              ∷ verb c.entrypoint
              ∷ (fs
                  ++ ((codes "$" ++ image_variable c)
                      ∷ (command_of c.entrypoint c.args ++ (log_path c ∷ [])))))))
