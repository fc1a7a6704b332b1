-- ===== src/Apptainer/Volumes/Binding.antt =====
-- The binds of natsprovider/apptainer_cmd_builder/volumes.py against the files that its scripts write.
use interlink_condorce_plugi.Prelude.{
  ◌≡◌, refl, ◌∙◌, inl, inr, Text, codes, List, [], ◌∷◌, ◌++◌, map, none, Bool, nat_beq, Bool-cases,
  ok,
}
use mathlib.Core.List.{append_assoc, map-append}
use interlink_condorce_plugi.Prelude.Dicts.{Dict, keys}
use interlink_condorce_plugi.Apptainer.Volumes.{FileSpec, Volume, host_path, file_path}
use interlink_condorce_plugi.Prelude.Paths.{ends_in_slash, join_path}
use interlink_condorce_plugi.Apptainer.Volumes.Mounts.{
  VolumeBind, bind_host_path, file_bind, mount_static,
}

-- an extension that begins with a dot may be added before or after a path is joined
join_path-append :
    (h k ext : Text) → join_path h k ++ (b'.' ∷ ext) ≡ join_path h (k ++ (b'.' ∷ ext))
unfolding join_path ends_in_slash codes
join_path-append [] [] ext = refl
join_path-append [] (c ∷ k) ext = refl
join_path-append (x ∷ h) [] ext = elim (Bool-cases (ends_in_slash (x ∷ h))) [
  | inl slash ↦ rw slash refl
  | inr other ↦ rw other (append_assoc (x ∷ h) (b'/' ∷ []) (b'.' ∷ ext))
]
join_path-append (x ∷ h) (c ∷ k) ext = elim (Bool-cases (nat_beq c b'/')) [
  | inl absolute ↦ rw absolute refl
  | inr relative ↦ elim (Bool-cases (ends_in_slash (x ∷ h))) [
    | inl slash ↦ rw (relative, slash) (append_assoc (x ∷ h) (c ∷ k) (b'.' ∷ ext))
    | inr other ↦ rw (relative, other) (append_assoc (x ∷ h) (b'/' ∷ c ∷ k) (b'.' ∷ ext))
  ]
]

module _ (v : Volume) (mount_path : Text) (read_only : Bool) where
  bind_paths :
      (ext : Text) (ks : List Text)
      → map bind_host_path
          (map (λ k. file_bind v (b'.' ∷ ext) (mount_path ++ (codes "/" ++ k)) read_only k) ks)
        ≡ map (file_path v (b'.' ∷ ext)) ks
  unfolding bind_host_path file_bind file_path
  bind_paths ext [] = refl
  bind_paths ext (k ∷ ks) = rw (join_path-append (host_path v) k ext, bind_paths ext ks) refl

  -- Mounting a static volume as a whole never fails, and binds, for each of its texts and then for
  -- each of its binary files, the file that the script of the volume writes for it, and nothing else.
  pub mount_static-file_path :
      (config binaries : Dict Text FileSpec)
      → (binds : List VolumeBind) × (mount_static v config binaries mount_path read_only none
          ≡ ok binds)
        × (map bind_host_path binds
            ≡ map (file_path v (codes ".ascii")) (keys config)
              ++ map (file_path v (codes ".binary")) (keys binaries))
  unfolding mount_static codes
  mount_static-file_path config binaries = (
    _,
    refl,
    map-append bind_host_path
          (map (λ k. file_bind v (codes ".ascii") (mount_path ++ (codes "/" ++ k)) read_only k)
            (keys config))
          (map (λ k. file_bind v (codes ".binary") (mount_path ++ (codes "/" ++ k)) read_only k)
            (keys binaries))
        ∙ (rw
            (bind_paths (codes "ascii") (keys config), bind_paths (codes "binary") (keys binaries))
            refl),
  )
