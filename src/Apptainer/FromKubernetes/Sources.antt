-- ===== src/Apptainer/FromKubernetes/Sources.antt =====
-- `_create_static_volume_dict` of natsprovider/apptainer_cmd_builder/from_kubernetes.py: the volumes of
-- config maps and of secrets.
use interlink_condorce_plugi.Prelude.{
  ℕ, Text, List, [], ◌∷◌, Option, none, some, false, Result, ok, err, ◌>>=◌, type_error,
  value_error, nat_eq, list_eq, ◌==◌, if◌then◌else◌,
}
use interlink_condorce_plugi.Prelude.Dicts.{Dict, get, put}
use interlink_condorce_plugi.BuildConfig.{BaseVolumeConfig}
use interlink_condorce_plugi.Apptainer.Volumes.{Volume, Kind, FileSpec}
use interlink_condorce_plugi.Apptainer.FromKubernetes.{
  Reference, PodVolume, Definition, Place, pod_volume, make_volume,
}

-- `_resolve_key2path`, which returns None for a key that is not listed
unfoldable pub path_in : List (Text × Text) → Text → Option Text
path_in [] key = none
path_in ((k, path) ∷ items) key = if k == key then some path else path_in items key

unfoldable pub resolve_key2path : Option (List (Text × Text)) → Text → Result (Option Text)
unfolding path_in
resolve_key2path none key = err type_error
resolve_key2path (some items) key = ok (path_in items key)

-- The dict of the files, by their paths. A file of which the path is None is found by pydantic.
unfoldable pub files :
    (read : Text → Result (List ℕ))
    → Option (List (Text × Text))
    → Dict Text Text
    → Result (Dict (Option Text) FileSpec)
unfolding resolve_key2path
files read items [] = ok []
files read items ((k, v) ∷ d) = do
  path ← resolve_key2path items k
  content ← read v
  rest ← files read items d
  ok ((path, record { content = content; executable = false }) ∷ rest)

-- pydantic's check of the keys; of two files with one path the later one stays
unfoldable pub checked :
    Dict (Option Text) FileSpec → Dict Text FileSpec → Result (Dict Text FileSpec)
unfolding put
checked [] d = ok d
checked ((none, spec) ∷ rest) d = err value_error
checked ((some path, spec) ∷ rest) d = checked rest (put d path spec)

-- by the name of the object: the volume that refers to it, the last one if there are several
unfoldable pub sources :
    (PodVolume → Option Reference)
    → List PodVolume
    → Dict Text (Text × Reference)
    → Dict Text (Text × Reference)
unfolding put
sources ref [] d = d
sources ref (v ∷ vs) d = elim (ref v) [
  | none ↦ sources ref vs d
  | some r ↦ sources ref vs (put d r.object_name (v.name, r))
]

module _ (fresh : Place → Text) (decode : Text → Result (List ℕ)) (config : BaseVolumeConfig) where
  unfoldable pub static_volume : Text → Reference → Definition → Result Volume
  unfolding files checked make_volume
  static_volume name r d = do
    texts ← files (λ t. ok t) r.items d.texts
    binaries ← files decode r.items d.binaries
    texts' ← checked texts []
    binaries' ← checked binaries []
    ok (make_volume config (fresh (pod_volume name)) (Kind.static texts' binaries') none none none)

  -- the loop over the definitions, of which those that no volume refers to are left out
  unfoldable pub create_static_volume_dict :
      Dict Text (Text × Reference) → List Definition → Dict Text Volume → Result (Dict Text Volume)
  unfolding get put
  create_static_volume_dict refs [] volumes = ok volumes
  create_static_volume_dict refs (d ∷ ds) volumes = elim (get refs d.name) [
    | none ↦ create_static_volume_dict refs ds volumes
    | some (name, r) ↦
        static_volume name r d >>= λ v. create_static_volume_dict refs ds (put volumes name v)
  ]
