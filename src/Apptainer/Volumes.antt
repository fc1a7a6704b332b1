-- ===== src/Apptainer/Volumes.antt =====
-- natsprovider/apptainer_cmd_builder/volumes.py: the volumes of a job and the lines of the script that
-- prepare them and clean them up. The subclasses of BaseVolume are the constructors of `Kind`.
pub mod Mounts
pub mod Binding
use interlink_condorce_plugi.Prelude.{
  ℕ, ◌+◌, ◌-◌, Text, codes, List, [], ◌∷◌, ◌++◌, map, Option, none, some, Bool, true, false, ◌&&◌,
  ◌||◌, nat_beq, leb, keep, join, split_at, starts_with, Result, ok, err, ◌>>=◌, if◌then◌else◌,
}
use interlink_condorce_plugi.Prelude.Dicts.{Dict}
use interlink_condorce_plugi.Prelude.Format.{interpolate, dedent, is_nonempty}
use interlink_condorce_plugi.Prelude.Paths.{join_path}
use interlink_condorce_plugi.Utils.Embed.{embed_ascii_file, embed_binary_file}
use interlink_condorce_plugi.BuildConfig.{FuseMode, host, container, host_privileged}

-- AsciiFileSpec and BinaryFileSpec: a text or bytes, and whether it is made executable
pub record FileSpec : Type 0 where
  pub content : List ℕ
  pub executable : Bool

pub data Kind : Type 0 where
  base scratch : Kind
  static : (config binaries : Dict Text FileSpec) → Kind
  fuse : (fuse_mount_script : Text) → Kind

pub record Volume : Type 0 where
  pub uid : Text
  pub scratch_area : Text
  pub init_script : Option Text
  pub cleanup_script : Option Text
  pub fuse_mode : FuseMode
  pub fuse_enabled_on_host : Bool
  pub host_path_override : Option Text
  pub additional_directories_in_path : List Text
  pub cachedir : Text
  pub kind : Kind

unfoldable pub host_path : Volume → Text
host_path v = elim v.host_path_override [
  | none ↦ join_path v.scratch_area (codes ".acb.volume." ++ v.uid)
  | some p ↦ p
]

-- `_parse_script`, which the two properties apply to the scripts
unfoldable pub parse_script : Volume → Option Text → Result (Option Text)
unfolding dedent interpolate
parse_script v none = ok none
parse_script v (some script) = do
  r ← interpolate ((codes "host_path", host_path v) ∷ (codes "uid", v.uid) ∷ []) (dedent script)
  ok (some r)

-- a script or the empty text, on a line of its own
unfoldable pub on_new_line : Option Text → Text
unfolding dedent
on_new_line none = []
on_new_line (some []) = []
on_new_line (some (c ∷ t)) = codes "\n" ++ dedent (c ∷ t)

unfoldable pub text_or_empty : Option Text → Text
text_or_empty none = []
text_or_empty (some t) = t

unfoldable pub lines_of : List Text → Text
unfolding join
lines_of ls = codes "\n" ++ join (codes "\n") ls

-- the path of a file of a static volume, as `initialize` writes it
unfoldable pub file_path : Volume → (extension key : Text) → Text
unfolding join_path
file_path v extension key = join_path (host_path v) (key ++ extension)

unfoldable pub fuse_mount_script_host_path : Volume → Text
fuse_mount_script_host_path v = join_path (host_path v) (codes "mount")

unfoldable pub fuse_mount_script_container_path : Volume → Text
fuse_mount_script_container_path v = codes "/mnt/apptainer_cmd_builder/fusemount-scripts/" ++ v.uid

unfoldable pub is_alphanumeric : ℕ → Bool
is_alphanumeric c =
    (leb b'a' c && leb c b'z') || ((leb b'A' c && leb c b'Z') || (leb b'0' c && leb c b'9'))

-- `sanitize_uid` of natsprovider/utils.py
unfoldable pub sanitize_uid : Text → Text
unfolding is_alphanumeric keep
sanitize_uid uid = keep is_alphanumeric uid

-- `upper` of an ASCII text
unfoldable pub upper : Text → Text
upper t = map (λ c. if leb b'a' c && leb c b'z' then c - 32 else c) t

-- the environment of a mount script; `host` runs it outside of the container
unfoldable pub mount_environment : Volume → List Text
unfolding join
mount_environment v =
    codes "export SUB_PATH=$1" ∷ codes "export MOUNT_POINT=$2" ∷ (elim v.fuse_mode [
      | host ↦
          (codes "export PATH="
            ++ (join (codes ":") v.additional_directories_in_path ++ codes ":$PATH"))
          ∷ (codes "export CACHEDIR=" ++ v.cachedir)
          ∷ []
      | _ ↦ []
    ])

-- the environment goes after a line `#!/...`, and after `#!/bin/sh` if the script has none
unfoldable pub with_environment : List Text → List Text → List Text
unfolding starts_with
with_environment env [] = codes "#!/bin/sh" ∷ (env ++ ([] ∷ []))
with_environment env (l ∷ ls) =
    if starts_with l (codes "#!/")
    then l ∷ (env ++ (join (codes "\n") (l ∷ ls) ∷ []))
    else codes "#!/bin/sh" ∷ (env ++ (join (codes "\n") (l ∷ ls) ∷ []))

unfoldable pub mount_script : Volume → Text → Text
unfolding mount_environment with_environment is_nonempty keep split_at join dedent
mount_script v script =
    join (codes "\n")
      (with_environment (mount_environment v) (keep is_nonempty (split_at b'\n' (dedent script))))

-- the variable that holds the process of a mount
unfoldable pub pid_variable : Volume → Text
unfolding sanitize_uid upper
pid_variable v = codes "FUSE_" ++ (upper (sanitize_uid v.uid) ++ codes "_PID")

-- the lines that mount on the host and wait for it
unfoldable pub host_mount : Volume → (mount_point : Text) → List Text
unfolding join
host_mount v mount_point =
    (codes "CACHEDIR="
      ++ (v.cachedir
          ++ (codes "/cache /bin/bash "
              ++ (fuse_mount_script_host_path v
                  ++ (codes " \"\" " ++ (mount_point ++ codes " &"))))))
    ∷ (pid_variable v ++ codes "=$!")
    ∷ join (codes "\n") (
        []
        ∷ codes "for attempt in $(seq 50); do"
        ∷ (codes "    if [ $(stat -c %d "
            ++ (host_path v
                ++ (codes ") -ne $(stat -c %d "
                    ++ (mount_point ++ codes " 2> /dev/null) ]; then"))))
        ∷ (codes "        echo \"Fuse mount of volume " ++ (v.uid ++ codes " complete\""))
        ∷ codes "        break;"
        ∷ codes "    else"
        ∷ codes "        sleep 0.1"
        ∷ codes "    fi"
        ∷ codes "done"
        ∷ []
        ∷ [])
    ∷ []

-- UTF-8 as a parameter
module _ (encode : Text → List ℕ) where
  unfoldable pub embed_all :
      (embed : Text → FileSpec → Text) → (path : Text → Text) → Dict Text FileSpec → List Text
  embed_all embed path [] = []
  embed_all embed path ((key, spec) ∷ specs) = embed (path key) spec ∷ embed_all embed path specs

  unfoldable pub static_lines : Volume → (config binaries : Dict Text FileSpec) → Text → List Text
  unfolding embed_all file_path embed_ascii_file embed_binary_file
  static_lines v config binaries init =
      ((codes "rm -rf " ++ host_path v) ∷ (codes "mkdir -p " ++ host_path v) ∷ init ∷ [])
      ++ (embed_all
            (λ path spec. embed_ascii_file encode path (codes "EOF") spec.content spec.executable)
            (file_path v (codes ".ascii")) config
          ++ embed_all
              (λ path spec. embed_binary_file path (codes "EOF") spec.content spec.executable)
              (file_path v (codes ".binary")) binaries)

  unfoldable pub fuse_lines : Volume → (script init : Text) → List Text
  unfolding mount_script host_mount
  fuse_lines v script init =
      let mount_point = join_path (host_path v) (codes "mnt") in
      ((codes "rm -rf " ++ host_path v)
        ∷ (codes "mkdir -p " ++ mount_point)
        ∷ (codes "mkdir -p " ++ v.cachedir)
        ∷ embed_ascii_file encode (fuse_mount_script_host_path v) (codes "EOF")
            (mount_script v script) true
        ∷ init
        ∷ [])
      ++ (if v.fuse_enabled_on_host then host_mount v mount_point else [])

  unfoldable pub initialize_with : Volume → Kind → Option Text → Text
  unfolding lines_of text_or_empty on_new_line
  initialize_with v base init = on_new_line init
  initialize_with v scratch init = on_new_line init
  initialize_with v (static config binaries) init =
      lines_of (static_lines v config binaries (text_or_empty init))
  initialize_with v (fuse script) init = lines_of (fuse_lines v script (text_or_empty init))

  unfoldable pub initialize : Volume → Result Text
  initialize v = do init ← parse_script v v.init_script; ok (initialize_with v v.kind init)

unfoldable pub unmount : Volume → Text
unmount v =
    let mount_point = join_path (host_path v) (codes "mnt") in
    codes "fusermount -u "
    ++ (mount_point
        ++ (codes "  || ( sleep 5 && fusermount -u "
            ++ (mount_point
                ++ (codes " )  || ( sleep 5 && fusermount -u "
                    ++ (mount_point ++ (codes " )  || kill $" ++ pid_variable v))))))

unfoldable pub one_or_none : Option Text → List Text
one_or_none none = []
one_or_none (some t) = t ∷ []

unfoldable pub finalize_with : Volume → Kind → Option Text → Text
unfolding unmount one_or_none lines_of on_new_line text_or_empty
finalize_with v base cleanup = on_new_line cleanup
finalize_with v scratch cleanup = on_new_line cleanup
finalize_with v (static _ _) cleanup =
    lines_of ((codes "rm -rf " ++ host_path v) ∷ text_or_empty cleanup ∷ [])
finalize_with v (fuse _) cleanup =
    lines_of ((if v.fuse_enabled_on_host then unmount v ∷ [] else []) ++ one_or_none cleanup)

unfoldable pub finalize : Volume → Result Text
finalize v = do cleanup ← parse_script v v.cleanup_script; ok (finalize_with v v.kind cleanup)
