-- ===== src/BuildConfig/Slurm.antt =====
-- `SlurmOptions` and `SlurmFlavor` of natsprovider/apptainer_cmd_builder/BuildConfig.py.
use interlink_condorce_plugi.Prelude.{ℕ, Text, List, Option}
use interlink_condorce_plugi.Prelude.Dicts.{Dict}

-- The values of `max_resources` are texts or integers; `str` is applied before they are read.
pub record SlurmFlavor : Type 0 where
  pub account : Option Text
  pub partition : Option Text
  pub qos : Option Text
  pub generic_resources : List Text
  pub max_time_seconds : Option ℕ
  pub max_resources : Dict Text Text
  pub memory : Option Text
  pub cpu : Option ℕ
  pub ntasks : Option ℕ
  pub reservation : Option Text
  pub nodelist : Option Text

pub record SlurmOptions : Type 0 where
  pub flavors : Option (List SlurmFlavor)
  pub bash_executable : Text
  pub sbatch_executable : Text
  pub squeue_executable : Text
  pub sacct_executable : Text
  pub nodes : ℕ
  pub cpus_per_task : Option ℕ
  pub mem_per_cpu : Option Text
  pub partition : Option Text
  pub time : Option ℕ
  pub qos : Option Text
  pub max_time_seconds : Option ℕ
  pub account : Option Text
  pub job_name : Option Text
  pub mail_user : Option Text
  pub mail_type : Option Text
  pub sandbox : Text
  pub output : Text
  pub error : Text
  pub memory : Option Text
  pub cpu : Option ℕ
  pub ntasks : Option ℕ
  pub reservation : Option Text
  pub nodelist : Option Text
  pub generic_resources : List Text
  pub flags : List Text
  pub header : Text
  pub footer : Text
