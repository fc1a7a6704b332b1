-- ===== src/Apptainer/Builder.antt =====
-- natsprovider/apptainer_cmd_builder/ApptainerCmdBuilder.py: the builder of the script of a job, and the
-- lines that need no parameter. Template is the template, and Dump the rest: there the orders in which the
-- sets of volumes and of binds are traversed are parameters, as are UTF-8, the random name and the token of
-- the image proxy.
pub mod Template
pub mod Dump
pub mod Squeeze
use interlink_condorce_plugi.Prelude.{
  ℕ, zero, suc, ◌+◌, ◌/◌, ◌%◌, Text, codes, List, [], ◌∷◌, ◌++◌, map, Option, none, some, Bool,
  true, false, not, ◌&&◌, ◌||◌, any, join, split_at, basename, collect, Result, ok, err, ◌>>=◌,
  if◌then◌else◌,
}
use interlink_condorce_plugi.Prelude.Numbers.{decimal}
use interlink_condorce_plugi.Prelude.Format.{is_nonempty}
use interlink_condorce_plugi.Prelude.Paths.{join_path}
use interlink_condorce_plugi.Apptainer.Volumes
use interlink_condorce_plugi.Apptainer.Volumes.{Volume, Kind}
use interlink_condorce_plugi.Apptainer.Volumes.Mounts.{VolumeBind}
use interlink_condorce_plugi.Apptainer.Network.{NetworkConfig, initialize, connect, finalize, proxy}
use interlink_condorce_plugi.Apptainer.Containers
use interlink_condorce_plugi.Apptainer.Containers.{
  ContainerSpec, exec, log_path, return_code_path, tmp_dir, var_tmp_dir,
}
use interlink_condorce_plugi.Apptainer.Containers.Image

pub record Job : Type 0 where
  pub uid : Text
  pub containers : List ContainerSpec
  pub init_containers : List ContainerSpec
  pub additional_volumes : List Volume
  pub additional_directories_in_path : List Text
  pub scratch_area : Text
  pub description : Text
  pub cachedir : Text
  pub fuse_sleep_seconds : ℕ
  pub network_config : NetworkConfig

unfoldable pub workdir : Job → Text
unfolding join_path codes
workdir b = join_path b.scratch_area (codes ".acb.cluster." ++ b.uid)

unfoldable pub volumes_in : List ContainerSpec → List Volume
volumes_in [] = []
volumes_in (c ∷ cs) = map (λ (vb : VolumeBind). vb.volume) c.volume_binds ++ volumes_in cs

abbrev pub glue : List Text → Text
glue = join []

-- `"%02d" % n`
unfoldable pub two_digits : ℕ → Text
unfolding decimal
two_digits n = elim (decimal n) [ c ∷ [] ↦ b'0' ∷ c ∷ [] | other ↦ other ]

-- the links, from the number `i` on
unfoldable pub links : Job → ℕ → List Text → List Text
unfolding two_digits codes
links b i [] = []
links b i (p ∷ ps) = (join_path (workdir b) (codes "bin") ++ two_digits i) ∷ links b (i + 1) ps

unfoldable pub link_lines : List Text → List Text → List Text
unfolding codes
link_lines (p ∷ ps) (l ∷ ls) = glue (codes "ln -s " ∷ p ∷ codes " " ∷ l ∷ []) ∷ link_lines ps ls
link_lines _ _ = []

unfoldable pub export_of_additional_directories_in_path : Job → Text
unfolding links link_lines join codes
export_of_additional_directories_in_path b = elim b.additional_directories_in_path [
  | [] ↦ []
  | p ∷ ps ↦
      let ls = links b 0 (p ∷ ps) in
      join (codes "\n") (
        codes "\n## Creating symbolic links to mask symbols (e.g. colon) in PATH"
        ∷ (link_lines (p ∷ ps) ls
            ++ (glue (codes "export PATH=" ∷ join (codes ":") ls ∷ codes ":$PATH" ∷ []) ∷ [])))
]

unfoldable pub is_fuse : Volume → Bool
is_fuse v = elim v.kind [ Kind.fuse _ ↦ true | _ ↦ false ]

unfoldable pub tmp_lines : List ContainerSpec → List Text
unfolding codes
tmp_lines [] = []
tmp_lines (c ∷ cs) =
    (codes "rm -rf " ++ tmp_dir c) ∷ (codes "rm -rf " ++ var_tmp_dir c) ∷ tmp_lines cs

-- `pids[i]` is the process of the container `i`
unfoldable pub wait_lines : ℕ → List ContainerSpec → List Text
unfolding decimal codes
wait_lines i [] = []
wait_lines i (c ∷ cs) =
    glue (codes "wait ${pids[" ∷ decimal i ∷ codes "]}; echo -n $? > " ∷ return_code_path c ∷ [])
    ∷ wait_lines (i + 1) cs

unfoldable pub output_line : ContainerSpec → Text
unfolding codes
output_line c =
    glue (codes "echo '=== Output of container " ∷ c.uid ∷ codes " ==='\ncat " ∷ log_path c ∷ [])

-- a member of the archive, in the directory of the container
unfoldable pub member : (path : ContainerSpec → Text) → ContainerSpec → Text
unfolding codes
member path c = glue (codes "-C " ∷ Containers.workdir c ∷ codes " " ∷ basename (path c) ∷ [])

unfoldable pub archive_line : Job → Text
unfolding member join codes
archive_line b =
    codes "tar cvf $SANDBOX/logs "
    ++ join (codes " ") (
        map (member log_path) b.init_containers
        ++ (map (member return_code_path) b.init_containers
            ++ (map (member log_path) b.containers ++ map (member return_code_path) b.containers)))
