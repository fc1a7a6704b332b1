-- ===== src/Apptainer/Logs.antt =====
-- The end of a job: `process_logs` of natsprovider/apptainer_cmd_builder/ApptainerCmdBuilder.py,
-- and the paths of containers.py that it looks files up by. `tar_file` is given as the list of its
-- regular members, name and text.
use interlink_condorce_plugi.Prelude.{
  Text, codes, List, [], ◌∷◌, ◌++◌, Option, none, some, Result, ok, err, ◌>>=◌, value_error,
  basename, split_last, collect, nat_eq, list_eq,
}
use interlink_condorce_plugi.Prelude.Paths.{join_path}
use interlink_condorce_plugi.Prelude.Dicts.{Dict, get, put}
use interlink_condorce_plugi.Prelude.Int.{ℤ, negsuc, parse_int}

-- the fields of a `ContainerSpec` that `process_logs` reads and writes
pub record Container : Type 0 where
  pub uid : Text
  pub scratch_area : Text
  pub log : Option Text
  pub return_code : Option ℤ

unfoldable pub workdir : Container → Text
unfolding join_path
workdir c = join_path c.scratch_area (codes ".acb.cnt." ++ c.uid)

unfoldable pub log_path : Container → Text
unfolding workdir
log_path c = join_path (workdir c) (c.uid ++ codes ".out")

unfoldable pub return_code_path : Container → Text
unfolding workdir
return_code_path c = join_path (workdir c) (c.uid ++ codes ".status")

-- later members of one name replace earlier ones
unfoldable pub file_contents : List (Text × Text) → Dict Text Text → Dict Text Text
file_contents [] d = d
file_contents ((name, content) ∷ members) d = file_contents members (put d name content)

-- the builder, less what `process_logs` leaves alone
pub record Builder : Type 0 where
  pub init_containers : List Container
  pub containers : List Container
  pub error_code_for_return_code_not_found : ℤ

-- the default of that field, -404
abbrev pub not_found : ℤ
not_found = negsuc 403

unfoldable pub read_code : ℤ → Option Text → Result ℤ
unfolding parse_int
read_code missing none = ok missing
read_code missing (some t) = elim (parse_int t) [ none ↦ err value_error | some n ↦ ok n ]

unfoldable pub read_log : (note : Text) → Option Text → Container → Text
unfolding log_path
read_log note none c = codes "Error retrieving log from " ++ (log_path c ++ note)
read_log note (some t) c = t

-- one turn of the two loops, which differ in a note
unfoldable pub process_container : (note : Text) → ℤ → Dict Text Text → Container → Result Container
unfolding read_code read_log log_path return_code_path split_last
process_container note missing files c = do
  code ← read_code missing (get files (basename (return_code_path c)))
  ok (record c {
    log = some (read_log note (get files (basename (log_path c))) c);
    return_code = some code;
  })

unfoldable pub process_logs : List (Text × Text) → Builder → Result Builder
unfolding file_contents process_container collect
process_logs members b = do
  let files = file_contents members []
  let missing = b.error_code_for_return_code_not_found
  cs ← collect (process_container [] missing files) b.containers
  is ← collect (process_container (codes " (init-container)") missing files) b.init_containers
  ok (record b { init_containers = is; containers = cs })
