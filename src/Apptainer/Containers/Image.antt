-- ===== src/Apptainer/Containers/Image.antt =====
-- `initialize` and `shub_token` of natsprovider/apptainer_cmd_builder/containers.py: the files of a
-- container and the choice of its image.
use interlink_condorce_plugi.Prelude.{
  ℕ, ◌-◌, ◌/◌, ◌%◌, Text, codes, List, [], ◌∷◌, ◌++◌, map, Option, none, some, Bool, true, false,
  ◌||◌, join, ltb, nat_beq, is_none, starts_with, Result, ok, err, ◌>>=◌, type_error, nat_eq,
  list_eq, if◌then◌else◌,
}
use interlink_condorce_plugi.Prelude.Dicts.{Dict, has}
use interlink_condorce_plugi.Utils.Embed.{embed_ascii_file, dirname}
use interlink_condorce_plugi.Prelude.Paths.{join_path}
use interlink_condorce_plugi.Apptainer.Containers.{
  ContainerSpec, env_file_path, tmp_dir, var_tmp_dir, executable_path, formatted_image,
  image_variable,
}
use interlink_condorce_plugi.Apptainer.Containers.Shell.{run_script}

-- `_GLOBAL_SHUB_PROXY_TOKEN`: when the token was obtained, in microseconds, and the token
abbrev pub Shared : Type 0
Shared = Option (ℕ × Text)

-- `.seconds` of the age, which starts again after a day
unfoldable pub is_expired : ℕ → ℕ → Bool
is_expired now obtained = ltb 300 ((now - obtained) / 1_000_000 % 86_400)

unfoldable pub drop_expired : ℕ → Shared → Shared
unfolding is_expired
drop_expired now none = none
drop_expired now (some (t, token)) = if is_expired now t then none else some (t, token)

-- the token from the variable or from the proxy
unfoldable pub fetched : ℕ → Result Text → Shared → Result (Option Text) × Shared
fetched now answer (some (t, token)) = (ok (some token), some (t, token))
fetched now (ok token) none = (ok (some token), some (now, token))
fetched now (err e) none = (err e, none)

-- `shub_token`; `answer` is what the proxy answers, if it is asked
unfoldable pub shub_token : ℕ → Result Text → ContainerSpec → Shared → Result (Option Text) × Shared
unfolding drop_expired fetched
shub_token now answer c shared = elim c.config.shub_proxy_server [
  | [] ↦ (ok none, shared)
  | _ ∷ _ ↦ fetched now answer (drop_expired now shared)
]

-- `dict(GENERATED_WITH=..., ACB_UID=..., **environment)`, where a key that is given twice is an error
unfoldable pub env_dict : ContainerSpec → Result (Dict Text Text)
unfolding has codes
env_dict c =
    if has c.environment (codes "GENERATED_WITH") || has c.environment (codes "ACB_UID")
    then err type_error
    else ok (
        (codes "GENERATED_WITH", codes "ApptainerCmdBuilder")
        ∷ (codes "ACB_UID", c.uid)
        ∷ c.environment)

unfoldable pub env_line : Text × Text → Text
unfolding codes
env_line (k, v) = k ++ (codes "=\"" ++ (v ++ codes "\""))

-- `image.replace(":", "_")`
unfoldable pub file_name : Text → Text
file_name image = map (λ c. if nat_beq c b':' then b'_' else c) image

unfoldable pub local_image : ContainerSpec → Text
unfolding file_name join_path
local_image c = join_path c.config.readonly_image_dir (file_name c.image)

unfoldable pub cached_image : ContainerSpec → Text
unfolding file_name join_path
cached_image c = join_path c.config.cachedir (file_name c.image)

unfoldable pub cvmfs_enable : ContainerSpec → Text
unfolding codes
cvmfs_enable c = if is_none c.config.cvmfs_unpacked_path then codes "0" else codes "1"

-- `None` prints as "None"
unfoldable pub cvmfs_image : ContainerSpec → Text
unfolding join_path codes
cvmfs_image c = elim c.config.cvmfs_unpacked_path [
  | none ↦ codes "None"
  | some p ↦ join_path p c.image
]

-- the choice where there is no proxy or the image is not one of docker
unfoldable pub plain_choice : ContainerSpec → List Text
unfolding image_variable local_image cvmfs_enable cvmfs_image formatted_image codes
plain_choice c =
    (codes "if [ -f " ++ (local_image c ++ codes " ]; then"))
    ∷ (codes "  echo Using local image from " ++ local_image c)
    ∷ (codes "  " ++ (image_variable c ++ (codes "=" ++ local_image c)))
    ∷ (codes "elif [ "
        ++ (cvmfs_enable c ++ (codes " -eq 1 ] && [ -f " ++ (cvmfs_image c ++ codes " ]; then"))))
    ∷ (codes "  echo Using cvmfs image from " ++ cvmfs_image c)
    ∷ (codes "  " ++ (image_variable c ++ (codes "=" ++ cvmfs_image c)))
    ∷ codes "else"
    ∷ (codes "  " ++ (image_variable c ++ (codes "=" ++ formatted_image c)))
    ∷ codes "fi"
    ∷ []

abbrev pub glue : List Text → Text
glue = join []

-- The choice where the proxy may have the image: from the read-only directory, from CVMFS, from the
-- cache if the proxy has the same, or from the proxy. `rndid` is a random name.
unfoldable pub remote_choice : (rndid token : Text) → ContainerSpec → Text
unfolding image_variable local_image cached_image cvmfs_enable cvmfs_image formatted_image dirname
remote_choice rndid token c = join (codes "\n") (
    []
    ∷ glue (
        codes "REMOTE_IMAGE_MD5=$(curl -Lvs "
        ∷ c.config.shub_proxy_server
        ∷ codes "/get-docker-md5/"
        ∷ c.image
        ∷ codes " -H \"X-Token: "
        ∷ token
        ∷ codes "\" )"
        ∷ [])
    ∷ glue (codes "if [ -f " ∷ local_image c ∷ codes " ]; then" ∷ [])
    ∷ glue (codes "    echo \"Using local static image from " ∷ local_image c ∷ codes "\"" ∷ [])
    ∷ glue (codes "    " ∷ image_variable c ∷ codes "=" ∷ local_image c ∷ [])
    ∷ glue (
        codes "elif [ "
        ∷ cvmfs_enable c
        ∷ codes " -eq 1 ] && [ -d "
        ∷ cvmfs_image c
        ∷ codes " ]; then"
        ∷ [])
    ∷ glue (codes "    echo \"Using cvmfs image from " ∷ cvmfs_image c ∷ codes "\"" ∷ [])
    ∷ glue (codes "    " ∷ image_variable c ∷ codes "=" ∷ cvmfs_image c ∷ [])
    ∷ glue (
        codes "elif [ -f "
        ∷ cached_image c
        ∷ codes " ] && [[ \"$REMOTE_IMAGE_MD5\" == \"$(md5sum "
        ∷ cached_image c
        ∷ codes " | cut -d ' ' -f 1)\" ]]; then"
        ∷ [])
    ∷ glue (codes "    " ∷ image_variable c ∷ codes "=" ∷ cached_image c ∷ [])
    ∷ codes "else"
    ∷ glue (codes "    if [ -f " ∷ cached_image c ∷ codes " ]; then" ∷ [])
    ∷ glue (
        codes "        touch "
        ∷ cached_image c
        ∷ codes "  # Avoid concurrent jobs to update the spoiled image"
        ∷ [])
    ∷ codes "    fi"
    ∷ glue (codes "    mkdir -p " ∷ dirname (cached_image c) ∷ [])
    ∷ glue (
        codes "    HTTP_STATUS=$(curl -Lo "
        ∷ cached_image c
        ∷ codes "-"
        ∷ rndid
        ∷ codes ".tmp \\"
        ∷ [])
    ∷ codes "        -w \"%{http_code}\" \\"
    ∷ glue (codes "        -H \"X-Token: " ∷ token ∷ codes "\" \\" ∷ [])
    ∷ glue (
        codes "        "
        ∷ c.config.shub_proxy_server
        ∷ codes "/get-docker/"
        ∷ c.image
        ∷ codes ") "
        ∷ [])
    ∷ codes "    if [[ $HTTP_STATUS -ge 200 && $HTTP_STATUS -lt 300 ]] \\"
    ∷ glue (
        codes "            && [[ \"$REMOTE_IMAGE_MD5\" == \"$(md5sum "
        ∷ cached_image c
        ∷ codes "-"
        ∷ rndid
        ∷ codes ".tmp | cut -d ' ' -f 1)\" ]]; then "
        ∷ [])
    ∷ glue (
        codes "        mv "
        ∷ cached_image c
        ∷ codes " "
        ∷ cached_image c
        ∷ codes "-"
        ∷ rndid
        ∷ codes ".rm     # Replace image with metadata operation"
        ∷ [])
    ∷ glue (
        codes "        mv "
        ∷ cached_image c
        ∷ codes "-"
        ∷ rndid
        ∷ codes ".tmp "
        ∷ cached_image c
        ∷ codes " "
        ∷ [])
    ∷ glue (
        codes "        rm -f "
        ∷ cached_image c
        ∷ codes "-"
        ∷ rndid
        ∷ codes ".rm                 # Clean the old image"
        ∷ [])
    ∷ glue (codes "        " ∷ image_variable c ∷ codes "=" ∷ cached_image c ∷ codes " " ∷ [])
    ∷ glue (
        codes "        echo \"Successfully obtained and cached image in "
        ∷ cached_image c
        ∷ codes "\""
        ∷ [])
    ∷ codes "    else "
    ∷ codes
        "        echo \"Could not retrieve image from remote cache (error $HTTP_STATUS), will rebuild.\""
    ∷ glue (
        codes "        rm -f "
        ∷ cached_image c
        ∷ codes "-"
        ∷ rndid
        ∷ codes ".tmp                    # Clean the corrupted image"
        ∷ [])
    ∷ glue (codes "        " ∷ image_variable c ∷ codes "=" ∷ formatted_image c ∷ codes " " ∷ [])
    ∷ codes "    fi "
    ∷ codes "fi"
    ∷ []
    ∷ [])

-- UTF-8 and the random name as parameters
module _ (encode : Text → List ℕ) (rndid : Text) where
  unfoldable pub image_choice : Option Text → ContainerSpec → List Text
  unfolding starts_with codes plain_choice formatted_image
  image_choice none c = plain_choice c
  image_choice (some token) c =
      if starts_with (formatted_image c) (codes "docker")
      then remote_choice rndid token c ∷ []
      else plain_choice c

  unfoldable pub executable_file : ContainerSpec → Option Text → List Text
  unfolding embed_ascii_file run_script executable_path codes
  executable_file c none = []
  executable_file c (some []) = []
  executable_file c (some (x ∷ e)) =
      embed_ascii_file encode (executable_path c) (codes "EOF") (run_script (x ∷ e) c.args) true
      ∷ []

  unfoldable pub initialize : (token : Option Text) → ContainerSpec → Result Text
  unfolding embed_ascii_file env_line join env_file_path tmp_dir var_tmp_dir codes
  initialize token c = do
    env ← env_dict c
    ok (
        codes "\n"
        ++ join (codes "\n") (
            embed_ascii_file encode (env_file_path c) (codes "EOF")
              (join (codes "\n") (map env_line env)) false
            ∷ (codes "mkdir -p " ++ tmp_dir c)
            ∷ (codes "mkdir -p " ++ var_tmp_dir c)
            ∷ (executable_file c c.entrypoint ++ image_choice token c)))
