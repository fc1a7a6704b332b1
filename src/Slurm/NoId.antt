-- ===== src/Slurm/NoId.antt =====
-- A submission by `create_pod` of natsprovider/slurmprovider/SlurmProvider.py of which sbatch names no job,
-- and what the provider answers.
use interlink_condorce_plugi.Prelude.{
  ℕ, arith, attribute_error, ◌≡◌, refl, ap, ◌∙◌, Text, codes, List, [], ◌∷◌, ◌++◌, map, Option,
  none, Result, ok, err, Error, contains_text, starts_with, ◌≢◌, false,
}
use mathlib.Core.List.{append_assoc, append-nil}
use interlink_condorce_plugi.Action.{Action, pure, lift, >>=-assoc, ◌>>=◌}
use interlink_condorce_plugi.BuildConfig.{BuildConfig}
use interlink_condorce_plugi.BuildConfig.Slurm.{SlurmOptions}
use interlink_condorce_plugi.Subjects.{last_token}
use interlink_condorce_plugi.Provider.{Provider, register}
use interlink_condorce_plugi.Provider.Callbacks.{create_pod_callback, answer_create, mark}
use interlink_condorce_plugi.Slurm.Flavors.{Pod}
use interlink_condorce_plugi.Slurm.Script.{sbatch_flags}
use interlink_condorce_plugi.Slurm.Submission.{
  Call, make_directory, Host, Trace, make_call, after_mkdir, make_directories, job_options,
  create_pod, job_id_of, submitted, slash, Made, refused, made, denied, nonempty, job_id_here,
}
use interlink_condorce_plugi.Slurm.Submitted.{keywords, submission}

-- an answer that does not raise is gone on from
call_goes :
    {A B : Type 0} (c : Call) (r : Result A) (f : A → Action Trace B) (calls : Trace) {a : A}
    → r ≡ ok a
    → (make_call c r >>= f) calls ≡ f a (calls ++ c ∷ [])
unfolding make_call ◌>>=◌
call_goes c r f calls h = rw h refl

lift_goes :
    {A B : Type 0} (r : Result A) (f : A → Action Trace B) (calls : Trace) {a : A}
    → r ≡ ok a
    → (lift r >>= f) calls ≡ f a calls
unfolding lift ◌>>=◌
lift_goes r f calls h = rw h refl

-- the directories are there or can be made, or the permission for it is missing
abbrev pub Makes : Host → Type 0
Makes host = (d : Text) (e : Error) → host.mkdir d ≢ refused e

after_mkdir-Makes : (m : Made) → ((e : Error) → m ≢ refused e) → after_mkdir m ≡ ok tt
unfolding after_mkdir
after_mkdir-Makes made h = refl
after_mkdir-Makes denied h = refl
after_mkdir-Makes (refused e) h = absurd (h e refl)

make_directories_go :
    {B : Type 0} (host : Host) (ds : List Text) (f : Unit {0} → Action Trace B) (calls : Trace)
    → Makes host
    → (make_directories host ds >>= f) calls ≡ f tt (calls ++ map make_directory ds)
unfolding make_directories
make_directories_go host [] f calls h =
    let same : calls ++ [] ≡ calls = append-nil calls in rw same (unfold ◌>>=◌ pure in refl)
make_directories_go host (d ∷ ds) f calls h =
    let m = make_call (make_directory d) (after_mkdir (host.mkdir d)) in
    let called : Trace = calls ++ make_directory d ∷ [] in
    >>=-assoc m (λ u. make_directories host ds) f calls
    ∙ call_goes _ _ (λ u. make_directories host ds >>= f) calls
        (after_mkdir-Makes (host.mkdir d) (h d))
    ∙ make_directories_go host ds f called h
    ∙ ap (λ (c : Trace). f tt c)
        (append_assoc calls (make_directory d ∷ []) (map make_directory ds))

-- the host carries out all that a submission asks for, and sbatch prints `stdout`
pub record Carries (host : Host) (config : BuildConfig) (job_name : Text) (o : SlurmOptions)
    (stdout : Text) : Type 0 where
  pub makes : Makes host
  pub writes :
      (host.write (slash (slash config.slurm.sandbox job_name) (codes "job_script.sh")) ≡ ok tt)
      × (host.write (slash (slash config.slurm.sandbox job_name) (codes "job.sh")) ≡ ok tt)
  pub chmods :
      host.chmod (slash (slash config.slurm.sandbox job_name) (codes "job_script.sh")) ≡ ok tt
  pub prints :
      host.sbatch
        (o.sbatch_executable ∷ slash (slash config.slurm.sandbox job_name) (codes "job.sh") ∷ [])
      ≡ ok stdout

create_pod_carried :
    (parse_quantity : Text → Result ℕ) (host : Host) (config : BuildConfig) (job_name job_sh : Text)
    (pod : Pod) (o : SlurmOptions) (flags : List Text) (stdout : Text)
    → job_options parse_quantity pod config.slurm ≡ ok o
    → sbatch_flags (keywords parse_quantity host config job_name job_sh pod) o ≡ ok flags
    → Carries host config job_name o stdout
    → create_pod parse_quantity host config job_name job_sh pod []
      ≡ (ok (job_id_of stdout), submission parse_quantity host config job_name job_sh pod o flags)
unfolding create_pod pure
create_pod_carried parse_quantity host config job_name job_sh pod o flags stdout ho hf c =
    make_directories_go host _ _ [] c.makes
    ∙ call_goes _ _ _ _ c.writes.0
    ∙ call_goes _ _ _ _ c.chmods
    ∙ lift_goes _ _ _ ho
    ∙ lift_goes _ _ _ hf
    ∙ call_goes _ _ _ _ c.writes.1
    ∙ call_goes _ _ _ _ c.prints

contains_text-tail :
    (c : ℕ) (t p : Text)
    → contains_text (c ∷ t) p ≡ false
    → (starts_with (c ∷ t) p ≡ false) × (contains_text t p ≡ false)
unfolding contains_text
contains_text-tail c t p h = (ground arith, ground arith)

job_id_here-none : (t : Text) → starts_with t submitted ≡ false → job_id_here t ≡ []
unfolding job_id_here
job_id_here-none t h = rw (h, job_id_here)

-- a text in which nothing is announced
job_id_of-none : (t : Text) → contains_text t submitted ≡ false → job_id_of t ≡ none
unfolding job_id_of nonempty
job_id_of-none [] h = refl
job_id_of-none (c ∷ t) h =
    let (start, rest) = contains_text-tail c t submitted h in
    ap (λ g. nonempty g (job_id_of t)) (job_id_here-none (c ∷ t) start) ∙ job_id_of-none t rest

-- If the host carries out all that a submission asks for, and sbatch prints a text that does not
-- contain "Submitted batch job ", then the job has been submitted with every call in its order, and the
-- provider has registered its subjects and noted its submission, but raises AttributeError and sends no
-- answer.
pub create_pod_callback-no_id :
    (parse_quantity : Text → Result ℕ) (host : Host) (config : BuildConfig) (job_sh : Text)
    (pod : Pod) (o : SlurmOptions) (flags : List Text) (stdout : Text) (now : ℕ) (subject_ : Text)
    (p : Provider)
    → job_options parse_quantity pod config.slurm ≡ ok o
    → sbatch_flags (keywords parse_quantity host config (last_token subject_) job_sh pod) o
      ≡ ok flags
    → Carries host config (last_token subject_) o stdout
    → contains_text stdout submitted ≡ false
    → ((create_pod parse_quantity host config (last_token subject_) job_sh pod []).1
        ≡ submission parse_quantity host config (last_token subject_) job_sh pod o flags)
      × (create_pod_callback
            (λ name sh q. (create_pod parse_quantity host config name sh q []).0)
            now
            subject_
            (ok (job_sh, pod))
            p
          ≡ (
            register (last_token subject_) (mark now (last_token subject_) p),
            err attribute_error,
          ))
unfolding create_pod_callback answer_create
create_pod_callback-no_id parse_quantity host config job_sh pod o flags stdout now subject_ p ho hf
      c silent =
    let done =
      create_pod_carried parse_quantity host config (last_token subject_) job_sh pod o flags stdout
        ho hf c in
    let returned : (create_pod parse_quantity host config (last_token subject_) job_sh pod []).0
        ≡ ok none =
      ap (λ (r : Result (Option Text) × Trace). r.0) done ∙ ap ok (job_id_of-none stdout silent) in
    (ap (λ (r : Result (Option Text) × Trace). r.1) done, rw returned refl)
