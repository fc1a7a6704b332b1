-- ===== src/Slurm/Submitted.antt =====
-- What `create_pod` of natsprovider/slurmprovider/SlurmProvider.py has done when it returns.
use interlink_condorce_plugi.Prelude.{
  ℕ, ◌≤◌, All, arith, ◌≡◌, refl, ap, sym, ◌∙◌, Text, codes, List, [], ◌∷◌, ◌++◌, map, Option, some,
  Result, ok, err, leb, ◌&&◌, true, ok-injective,
}
use interlink_condorce_plugi.Prelude.Dicts.{Dict}
use mathlib.Core.List.{append_assoc, append-nil}
use interlink_condorce_plugi.Action.{Action, pure, lift, continue, >>=-assoc, ◌>>=◌}
use interlink_condorce_plugi.BuildConfig.{BuildConfig}
use interlink_condorce_plugi.BuildConfig.Slurm.{SlurmOptions}
use interlink_condorce_plugi.Slurm.Flavors.{Pod}
use interlink_condorce_plugi.Slurm.Script.{sbatch_flags, slurm_script}
use interlink_condorce_plugi.Slurm.Submission.{
  Call, make_directory, make_executable, write_file, run, Host, Trace, make_call, after_mkdir,
  make_directories, job_options, create_pod, job_id_of, submitted, digits_prefix, slash,
}

-- a method that returns has gone on from each step that returned
continue-returns :
    {A B : Type 0} (r : Result A) (f : A → Action Trace B) (calls : Trace) {b : B}
    → (continue r f calls).0 ≡ ok b
    → (a : A) × (r ≡ ok a) × (continue r f calls ≡ f a calls) × ((f a calls).0 ≡ ok b)
continue-returns (ok a) f calls h = (a, refl, refl, h)
continue-returns (err e) f calls h = cc

call-returns :
    {A B : Type 0} (c : Call) (r : Result A) (f : A → Action Trace B) (calls : Trace) {b : B}
    → ((make_call c r >>= f) calls).0 ≡ ok b
    → (a : A) × (r ≡ ok a)
      × ((make_call c r >>= f) calls ≡ f a (calls ++ c ∷ []))
      × ((f a (calls ++ c ∷ [])).0 ≡ ok b)
unfolding make_call ◌>>=◌
call-returns c r f calls h = continue-returns r f (calls ++ c ∷ []) h

lift-returns :
    {A B : Type 0} (r : Result A) (f : A → Action Trace B) (calls : Trace) {b : B}
    → ((lift r >>= f) calls).0 ≡ ok b
    → (a : A) × (r ≡ ok a) × ((lift r >>= f) calls ≡ f a calls) × ((f a calls).0 ≡ ok b)
unfolding lift ◌>>=◌
lift-returns r f calls h = continue-returns r f calls h

module _ (host : Host) where
  make_directories-returns :
      {B : Type 0} (ds : List Text) (f : Unit {0} → Action Trace B) (calls : Trace) {b : B}
      → ((make_directories host ds >>= f) calls).0 ≡ ok b
      → ((make_directories host ds >>= f) calls ≡ f tt (calls ++ map make_directory ds))
        × ((f tt (calls ++ map make_directory ds)).0 ≡ ok b)
  unfolding make_directories
  make_directories-returns [] f calls h =
      let same : calls ++ [] ≡ calls = append-nil calls in rw same (unfold ◌>>=◌ pure in (refl, h))
  make_directories-returns (d ∷ ds) f calls h =
      let m = make_call (make_directory d) (after_mkdir (host.mkdir d)) in
      let assoc = >>=-assoc m (λ u. make_directories host ds) f calls in
      let called : Trace = calls ++ make_directory d ∷ [] in
      let (u, e, s, h') =
        call-returns _ _ (λ u. make_directories host ds >>= f) calls
          (ap (λ (p : Result _ × Trace). p.0) (sym assoc) ∙ h) in
      let (s', h'') = make_directories-returns ds f called h' in
      let moved = append_assoc calls (make_directory d ∷ []) (map make_directory ds) in
      (
        assoc ∙ s ∙ s' ∙ ap (λ (c : Trace). f tt c) moved,
        ap (λ (c : Trace). (f tt c).0) (sym moved) ∙ h'',
      )

module _ (parse_quantity : Text → Result ℕ) (host : Host) (config : BuildConfig)
    (job_name job_sh : Text) (pod : Pod) where
  abbrev pub sandbox : Text
  sandbox = slash config.slurm.sandbox job_name

  abbrev pub keywords : Dict Text Text
  keywords = (codes "sandbox", sandbox) ∷ (codes "job_name", job_name) ∷ []

  abbrev pub job_script_path : Text
  job_script_path = slash sandbox (codes "job_script.sh")

  abbrev pub slurm_script_path : Text
  slurm_script_path = slash sandbox (codes "job.sh")

  -- all that a submission with these options and flags asks of the host, in order
  abbrev pub submission : SlurmOptions → List Text → Trace
  submission o flags =
      make_directory config.volumes.apptainer_cachedir
      ∷ make_directory (slash config.volumes.scratch_area job_name)
      ∷ make_directory sandbox
      ∷ write_file job_script_path job_sh
      ∷ make_executable job_script_path
      ∷ write_file slurm_script_path (slurm_script job_name flags sandbox job_script_path o)
      ∷ run (o.sbatch_executable ∷ slurm_script_path ∷ [])
      ∷ []

  pub record Submitted (id : Option Text) (calls : Trace) : Type 0 where
    pub options : SlurmOptions
    pub flags : List Text
    pub stdout : Text
    pub from_pod : job_options parse_quantity pod config.slurm ≡ ok options
    pub from_options : sbatch_flags keywords options ≡ ok flags
    pub script_written : host.write job_script_path ≡ ok tt
    pub slurm_script_written : host.write slurm_script_path ≡ ok tt
    pub accepted : host.sbatch (options.sbatch_executable ∷ slurm_script_path ∷ []) ≡ ok stdout
    pub named : id ≡ job_id_of stdout
    pub called : calls ≡ submission options flags

  -- If the method returns, it has made every call of `submission`, in this order and no other, with
  -- the options and the flags of the pod; both scripts have been written, sbatch has been run, and the
  -- job id is the one that its output names.
  pub create_pod-Submitted :
      (id : Option Text)
      → (create_pod parse_quantity host config job_name job_sh pod []).0 ≡ ok id
      → Submitted id (create_pod parse_quantity host config job_name job_sh pod []).1
  unfolding create_pod pure
  create_pod-Submitted id h =
      let (s0, h0) = make_directories-returns host _ _ [] h in
      let (u1, e1, s1, h1) = call-returns _ _ _ _ h0 in
      let (u2, e2, s2, h2) = call-returns _ _ _ _ h1 in
      let (o, eo, s3, h3) = lift-returns _ _ _ h2 in
      let (flags, ef, s4, h4) = lift-returns _ _ _ h3 in
      let (u5, e5, s5, h5) = call-returns _ _ _ _ h4 in
      let (stdout, e6, s6, h6) = call-returns _ _ _ _ h5 in
      let ended = s0 ∙ s1 ∙ s2 ∙ s3 ∙ s4 ∙ s5 ∙ s6 in
      record {
        options = o;
        flags = flags;
        stdout = stdout;
        from_pod = eo;
        from_options = ef;
        script_written = e1;
        slurm_script_written = e5;
        accepted = e6;
        named = sym (unfold pure in ok-injective h6);
        called = ap (λ (p : Result (Option Text) × Trace). p.1) ended;
      }

abbrev pub IsDigit : ℕ → Type 0
IsDigit c = (b'0' ≤ c) × (c ≤ b'9')

digits_prefix-append : (ds rest : Text) → All IsDigit ds → digits_prefix (ds ++ (b'\n' ∷ rest)) ≡ ds
unfolding digits_prefix
digits_prefix-append [] rest h = refl
digits_prefix-append (d ∷ ds) rest h = ground (arith, h.0, digits_prefix-append ds rest h.1)

IsDigit-true : (d : ℕ) → IsDigit d → (leb b'0' d && leb d b'9') ≡ true
IsDigit-true d h = ground arith

-- What sbatch prints for a job, whatever follows on the next lines, is read as the number of the job.
job_id_of-submitted :
    (d : ℕ) (ds rest : Text)
    → IsDigit d
    → All IsDigit ds
    → job_id_of (submitted ++ ((d ∷ ds) ++ (b'\n' ∷ rest))) ≡ some (d ∷ ds)
unfolding job_id_of
job_id_of-submitted d ds rest hd hds = rw (IsDigit-true d hd, digits_prefix-append ds rest hds) refl
