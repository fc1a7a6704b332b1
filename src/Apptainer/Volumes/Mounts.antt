-- ===== src/Apptainer/Volumes/Mounts.antt =====
-- The `mount` methods and `VolumeBind` of natsprovider/apptainer_cmd_builder/volumes.py.
use interlink_condorce_plugi.Prelude.{
  Text, codes, List, [], ◌∷◌, ◌++◌, map, Option, none, some, Bool, true, false, Result, ok, err,
  attribute_error, key_error, not_implemented, nat_eq, list_eq, if◌then◌else◌,
}
use interlink_condorce_plugi.Prelude.Dicts.{Dict, has, keys}
use interlink_condorce_plugi.BuildConfig.{FuseMode, container}
use interlink_condorce_plugi.Apptainer.Volumes.{
  FileSpec, Kind, Volume, host_path, fuse_mount_script_host_path, fuse_mount_script_container_path,
}
use interlink_condorce_plugi.Prelude.Paths.{join_path}

pub data MountType : Type 0 where
  bind scratch fuse : MountType

pub record VolumeBind : Type 0 where
  pub volume : Volume
  pub container_path : Text
  pub read_only : Bool
  pub host_path_override : Option Text
  pub mount_type : MountType
  pub sub_path : Option Text

-- `VolumeBind.host_path`
unfoldable pub bind_root : VolumeBind → Text
bind_root b = elim b.host_path_override [ none ↦ host_path b.volume | some p ↦ p ]

unfoldable pub bind_host_path : VolumeBind → Text
unfolding bind_root join_path
bind_host_path b = elim b.sub_path [ none ↦ bind_root b | some s ↦ join_path (bind_root b) s ]

unfoldable pub access : Bool → Text
unfolding codes
access true = codes "ro"
access false = codes "rw"

unfoldable pub or_empty : Option Text → Text
or_empty none = []
or_empty (some t) = t

-- what the command line names as the place of the mount script, and where it is
unfoldable pub fuse_place : FuseMode → Volume → Text
unfolding fuse_mount_script_host_path fuse_mount_script_container_path codes
fuse_place container v = codes "container:" ++ fuse_mount_script_container_path v
fuse_place _ v = codes "host:" ++ fuse_mount_script_host_path v

unfoldable pub fuse_text : VolumeBind → Kind → Result Text
unfolding fuse_place or_empty codes
fuse_text b (Kind.fuse _) = ok (
    codes "--fusemount \""
    ++ (fuse_place b.volume.fuse_mode b.volume
        ++ (codes " "
            ++ (or_empty b.sub_path
                ++ (codes " "
                    ++ (b.container_path
                        ++ (codes " "
                            ++ ((if b.volume.fuse_enabled_on_host then b.container_path else [])
                                ++ codes "\""))))))))
fuse_text b _ = err attribute_error

-- `VolumeBind.__str__`, an argument of apptainer
unfoldable pub bind_text : VolumeBind → Result Text
unfolding fuse_text bind_host_path access codes
bind_text b = elim b.mount_type [
  | bind ↦ ok (
      codes "--bind "
      ++ (bind_host_path b
          ++ (codes ":" ++ (b.container_path ++ (codes ":" ++ access b.read_only)))))
  | scratch ↦ ok (codes "--scratch " ++ b.container_path)
  | fuse ↦ fuse_text b b.volume.kind
]

-- a bind of a file of a static volume
unfoldable pub file_bind : Volume → (extension path : Text) → Bool → (key : Text) → VolumeBind
unfolding join_path
file_bind v extension path read_only key = record {
  volume = v;
  container_path = path;
  read_only = read_only;
  host_path_override = some (join_path (host_path v) key ++ extension);
  mount_type = bind;
  sub_path = none;
}

-- `StaticVolume.mount`, which ignores the subpath
unfoldable pub mount_static :
    Volume
    → (config binaries : Dict Text FileSpec) → (mount_path : Text) → Bool
    → Option Text
    → Result (List VolumeBind)
unfolding file_bind keys has codes
mount_static v config binaries mount_path read_only none = ok (
    map (λ k. file_bind v (codes ".ascii") (mount_path ++ (codes "/" ++ k)) read_only k)
      (keys config)
    ++ map (λ k. file_bind v (codes ".binary") (mount_path ++ (codes "/" ++ k)) read_only k)
        (keys binaries))
mount_static v config binaries mount_path read_only (some key) =
    if has config key
    then ok (file_bind v (codes ".ascii") mount_path read_only key ∷ [])
    else if has binaries key
    then ok (file_bind v (codes ".binary") mount_path read_only key ∷ [])
    else err key_error

unfoldable pub whole_bind :
    Volume → Text → Option Text → Bool → Option Text → MountType → VolumeBind
whole_bind v mount_path sub_path read_only path kind = record {
  volume = v;
  container_path = mount_path;
  read_only = read_only;
  host_path_override = path;
  mount_type = kind;
  sub_path = sub_path;
}

-- `FuseVolume.mount`
unfoldable pub mount_fuse : Volume → Text → Option Text → Bool → Result (List VolumeBind)
unfolding whole_bind join_path codes fuse_mount_script_host_path fuse_mount_script_container_path
mount_fuse v mount_path sub_path true = err not_implemented
mount_fuse v mount_path sub_path false =
    if v.fuse_enabled_on_host
    then ok (
        whole_bind v mount_path sub_path false (some (join_path (host_path v) (codes "mnt"))) bind
        ∷ [])
    else ok (
        whole_bind v (fuse_mount_script_container_path v) none false
          (some (fuse_mount_script_host_path v)) bind
        ∷ whole_bind v mount_path sub_path false none fuse
        ∷ [])

-- `volume.mount(mount_path, sub_path, read_only)`, by the class of the volume
unfoldable pub mount_as : Kind → Volume → Text → Option Text → Bool → Result (List VolumeBind)
unfolding mount_static mount_fuse
mount_as Kind.base v mount_path sub_path read_only =
    ok (whole_bind v mount_path sub_path read_only none bind ∷ [])
mount_as Kind.scratch v mount_path sub_path read_only =
    ok (whole_bind v mount_path sub_path read_only none scratch ∷ [])
mount_as (Kind.static config binaries) v mount_path sub_path read_only =
    mount_static v config binaries mount_path read_only none
mount_as (Kind.fuse _) v mount_path sub_path read_only = mount_fuse v mount_path sub_path read_only

unfoldable pub mount : Volume → Text → Option Text → Bool → Result (List VolumeBind)
unfolding mount_as
mount v mount_path sub_path read_only = mount_as v.kind v mount_path sub_path read_only
