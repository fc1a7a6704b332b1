-- ===== src/Slurm/Script.antt =====
-- The sbatch flags and the Slurm script that `create_pod` of
-- natsprovider/slurmprovider/SlurmProvider.py makes of the options, with the `arg` templates of
-- `SlurmOptions` in natsprovider/apptainer_cmd_builder/BuildConfig.py, in the order of its fields.
use interlink_condorce_plugi.Prelude.{
  ℕ, Text, codes, List, [], ◌∷◌, ◌++◌, map, Option, none, some, join, collect, Result, ok, ◌>>=◌,
}
use interlink_condorce_plugi.Prelude.Dicts.{Dict}
use interlink_condorce_plugi.Prelude.Format.{interpolate}
use interlink_condorce_plugi.BuildConfig.Slurm.{SlurmOptions}
use interlink_condorce_plugi.Prelude.Numbers.{decimal}

-- A template of an option: what stands before `%s` or `%d`, and after it.
unfoldable pub int_flag : (before after : Text) → Option ℕ → List Text
unfolding decimal codes
int_flag before after none = []
int_flag before after (some n) = (codes "#SBATCH " ++ (before ++ (decimal n ++ after))) ∷ []

module _ (keywords : Dict Text Text) where
  -- `arg % value % keywords`
  unfoldable pub text_flag : Text → Option Text → Result (List Text)
  unfolding interpolate codes
  text_flag before none = ok []
  text_flag before (some v) = do
    f ← interpolate keywords (before ++ v)
    ok ((codes "#SBATCH " ++ f) ∷ [])

  -- `arg % (value % keywords)`, for each value
  unfoldable pub list_flags : Text → List Text → Result (List Text)
  unfolding interpolate collect codes
  list_flags before vs = do
    fs ← collect (interpolate keywords) vs
    ok (map (λ f. codes "#SBATCH " ++ (before ++ f)) fs)

  unfoldable pub sbatch_flags : SlurmOptions → Result (List Text)
  unfolding int_flag text_flag list_flags codes
  sbatch_flags o = do
    let nodes = int_flag (codes "--nodes ") [] (some o.nodes)
    let cpus_per_task = int_flag (codes "--cpu-per-task ") [] o.cpus_per_task
    mem_per_cpu ← text_flag (codes "--mem-per-cpu ") o.mem_per_cpu
    partition ← text_flag (codes "--partition ") o.partition
    let time = int_flag (codes "--time ") (codes ":00:00") o.time
    qos ← text_flag (codes "--qos ") o.qos
    let max_time_seconds = int_flag (codes "--time ") [] o.max_time_seconds
    account ← text_flag (codes "--account ") o.account
    job_name ← text_flag (codes "--job-name ") o.job_name
    mail_user ← text_flag (codes "--mail-user ") o.mail_user
    mail_type ← text_flag (codes "--mail-type ") o.mail_type
    output ← text_flag (codes "--output ") (some o.output)
    error ← text_flag (codes "--error ") (some o.error)
    memory ← text_flag (codes "--mem ") o.memory
    let cpu = int_flag (codes "--cpus-per-task ") [] o.cpu
    let ntasks = int_flag (codes "--ntasks ") [] o.ntasks
    reservation ← text_flag (codes "--reservation ") o.reservation
    nodelist ← text_flag (codes "--nodelist ") o.nodelist
    generic_resources ← list_flags (codes "--gres=") o.generic_resources
    ok (
        nodes
        ++ (cpus_per_task
            ++ (mem_per_cpu
                ++ (partition
                    ++ (time
                        ++ (qos
                            ++ (max_time_seconds
                                ++ (account
                                    ++ (job_name
                                        ++ (mail_user
                                            ++ (mail_type
                                                ++ (output
                                                    ++ (error
                                                        ++ (memory
                                                            ++ (cpu
                                                            ++ (ntasks
                                                            ++ (reservation
                                                            ++ (nodelist
                                                            ++ generic_resources))))))))))))))))))

-- the lines of the script, whose template is a literal of the source
unfoldable pub slurm_script :
    (job_name : Text) → (flags : List Text) → (sandbox job_script_path : Text) → SlurmOptions → Text
unfolding join codes
slurm_script job_name flags sandbox job_script_path o = join (codes "\n") (
    codes "#!/bin/bash"
    ∷ []
    ∷ (codes "#SBATCH --job-name=" ++ job_name)
    ∷ join (codes "\n") flags
    ∷ []
    ∷ (codes "export SANDBOX=" ++ sandbox)
    ∷ []
    ∷ o.header
    ∷ []
    ∷ (o.bash_executable ++ (codes " " ++ (job_script_path ++ codes " ")))
    ∷ []
    ∷ o.footer
    ∷ []
    ∷ [])
