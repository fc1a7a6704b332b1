-- ===== src/Apptainer/Builder/Template.antt =====
-- The template of natsprovider/apptainer_cmd_builder/ApptainerCmdBuilder.py, and the blank lines that
-- `dump` takes out of it.
use interlink_condorce_plugi.Prelude.{
  Text, codes, List, [], ◌∷◌, ◌++◌, map, ◌||◌, join, if◌then◌else◌,
}
use interlink_condorce_plugi.Prelude.Format.{is_nonempty, splitlines}
use interlink_condorce_plugi.Apptainer.Network.{initialize, connect, finalize}
use interlink_condorce_plugi.Apptainer.Builder.{
  Job, export_of_additional_directories_in_path, glue, workdir,
}

-- `next_line for line, next_line in zip(lines[:-1], lines[1:]) if len(line) + len(next_line)`
unfoldable pub squeeze : List Text → List Text
unfolding is_nonempty
squeeze [] = []
squeeze (l ∷ []) = []
squeeze (l ∷ m ∷ ls) =
    let rest = squeeze (m ∷ ls) in if is_nonempty l || is_nonempty m then m ∷ rest else rest

-- the parts of the script that may raise
pub record Parts : Type 0 where
  pub environment_files : Text
  pub volume_files : Text
  pub init_commands : Text
  pub commands : Text
  pub cleanup_volumes : Text

-- `self.description.splitlines()`, each line after "## " and all in one line of the script
unfoldable pub docs : Job → Text
unfolding splitlines codes
docs b = glue (map (λ l. codes "## " ++ l) (splitlines b.description))

-- the template, filled; `version` and `application_token` are constants of the package
unfoldable pub template : (version application_token : Text) → Job → Parts → Text
unfolding docs workdir initialize connect finalize export_of_additional_directories_in_path join
    codes
template version application_token b p = join (codes "\n") (
    []
    ∷ codes "#!/bin/sh"
    ∷ []
    ∷ codes "################################################################################"
    ∷ glue (codes "## Code generated by ApptainerCmdBuilder version " ∷ version ∷ [])
    ∷ (docs b)
    ∷ []
    ∷ []
    ∷ codes "## Setting umask for creating new files read-writable from all"
    ∷ codes "umask 0011"
    ∷ []
    ∷ codes "export STARTING_DIR=$PWD"
    ∷ codes "export SANDBOX=${SANDBOX:-$PWD}"
    ∷ codes "touch $SANDBOX/logs "
    ∷ []
    ∷ glue (codes "rm -rf " ∷ workdir b ∷ [])
    ∷ glue (codes "mkdir -p " ∷ workdir b ∷ [])
    ∷ glue (codes "cd " ∷ workdir b ∷ [])
    ∷ []
    ∷ glue (codes "export APPTAINER_CACHEDIR=" ∷ b.cachedir ∷ [])
    ∷ codes "export SINGULARITY_CACHEDIR=$APPTAINER_CACHEDIR"
    ∷ codes "mkdir -p $APPTAINER_CACHEDIR"
    ∷ (export_of_additional_directories_in_path b)
    ∷ []
    ∷ codes "################################################################################"
    ∷ codes "## Environment variables"
    ∷ p.environment_files
    ∷ []
    ∷ codes "################################################################################"
    ∷ codes "## Networking (if enabled)"
    ∷ codes "## Tunnel initialization"
    ∷ (initialize b.network_config)
    ∷ []
    ∷ codes "## Connection "
    ∷ (connect b.network_config)
    ∷ []
    ∷ codes "################################################################################"
    ∷ codes "## Defines and register the callback for cleaning volumes up upon job termination"
    ∷ codes "cleanup() {"
    ∷ codes "    echo \"Cleaning up interlink machinery...\""
    ∷ glue (codes "    " ∷ finalize b.network_config ∷ [])
    ∷ []
    ∷ glue (codes "    " ∷ p.cleanup_volumes ∷ [])
    ∷ codes "    cd $STARTING_DIR "
    ∷ glue (codes "    rm -rf " ∷ workdir b ∷ [])
    ∷ []
    ∷ codes "    echo \"Cleanup completed successfully\""
    ∷ codes "}"
    ∷ codes "trap cleanup EXIT INT TERM"
    ∷ []
    ∷ codes "## Volumes settings"
    ∷ p.volume_files
    ∷ []
    ∷ codes "################################################################################"
    ∷ codes "## Initialization section"
    ∷ p.init_commands
    ∷ []
    ∷ codes "################################################################################"
    ∷ codes "## Execution section"
    ∷ p.commands
    ∷ []
    ∷ codes "################################################################################"
    ∷ codes "## Output retrival through stdout "
    ∷ glue (codes "echo \"==== OUTPUT BEGIN " ∷ application_token ∷ codes " ====\"" ∷ [])
    ∷ codes "echo $(gzip -c $SANDBOX/logs | base64)"
    ∷ glue (codes "echo \"==== OUTPUT END " ∷ application_token ∷ codes " ====\"" ∷ [])
    ∷ []
    ∷ []
    ∷ [])
