-- ===== src/Examples/OfCondor.antt =====
-- The theorems on natsprovider/condor, applied to a schedd that is named by a number.
use interlink_condorce_plugi.Prelude.{
  ℕ, zero, suc, ◌<◌, ◌≡◌, ◌≢◌, refl, inl, inr, codes, List, [], ◌∷◌, ◌++◌, none, some, Result, ok,
  err, htcondor_io_error, arith, All,
}
use interlink_condorce_plugi.Condor.{CondorJob, CondorJobStatus, running}
use interlink_condorce_plugi.Condor.Schedd.{Remote, status_by_name, get_schedd}
use interlink_condorce_plugi.Condor.Attempts.{status_by_name-answer}
use interlink_condorce_plugi.Prelude.Int.{pos}
use interlink_condorce_plugi.Slurm.Submitted.{IsDigit}
use interlink_condorce_plugi.Condor.Submit.{announced, found, job_id_in}
use interlink_condorce_plugi.Condor.Submitted.{NoMatch, job_id_in-announced}
use interlink_condorce_plugi.Condor.Locating.{Tries, latest, get_schedd-locates}

abbrev job : CondorJob
job = record {
  cluster_id = 42;
  job_status = 2;
  job_submit_file = codes "/tmp/.condor.x/condor.sub";
  transfer_output_remaps = codes "out=/tmp/out";
  transfer_output = some (codes "logs");
  iwd = codes "/tmp";
}

-- the first query fails, and the next ones list the job
unfoldable queries : ℕ → ℕ → Result (List CondorJob)
queries zero d = err htcondor_io_error
queries (suc n) d = ok (job ∷ [])

abbrev remote : Remote ℕ
remote = record { token = λ i. ok tt; locate = λ i j. ok 7; query = queries }

failed_before : (j : ℕ) → j < 1 → remote.query j 7 ≡ err htcondor_io_error
unfolding queries
failed_before zero h = refl
failed_before (suc j) h = absurd (omega arith)

listed : remote.query 1 7 ≢ err htcondor_io_error
unfolding queries
listed = cc

status_by_name-answer_example : status_by_name remote (some 7) ≡ (ok running, some 7)
unfolding queries interlink_condorce_plugi.Condor.Schedd.last_job
    interlink_condorce_plugi.Condor.status_of_code
status_by_name-answer_example =
    status_by_name-answer remote 7 1 (λ j h. refl) failed_before (omega arith) (inr listed)

-- the first attempt finds the schedd, and no later one does
unfoldable found_once : ℕ → Result ℕ
found_once zero = ok 7
found_once (suc n) = err htcondor_io_error

tries : (j : ℕ) → Tries found_once j
unfolding found_once
tries zero = inl (7, refl)
tries (suc j) = inr refl

get_schedd-locates_example :
    (get_schedd (ok tt) found_once none ≡ (err htcondor_io_error, some 7))
    × ((d : ℕ) (locate' : ℕ → Result ℕ)
        → some 7 ≡ some d
        → get_schedd (ok tt) locate' (some 7) ≡ (ok d, some d))
unfolding found_once latest
get_schedd-locates_example = get_schedd-locates found_once tries

-- `Job 1 submitted to cluster 42.`
before : NoMatch (codes "1 ") (announced ++ (codes "42" ++ codes "."))
unfolding codes interlink_condorce_plugi.Condor.Submit.group_here
before = (refl, (refl, tt))

after : found 0 [] ≡ []
unfolding found
after = refl

digits : All IsDigit (codes "42")
unfolding codes
digits = ((omega arith, omega arith), ((omega arith, omega arith), tt))

job_id_in-announced_example :
    job_id_in (codes "1 " ++ (announced ++ (codes "42" ++ codes "."))) ≡ ok (pos 42)
unfolding codes interlink_condorce_plugi.Condor.Submit.int
job_id_in-announced_example =
    job_id_in-announced (codes "1 ") [] b'4' (b'2' ∷ []) digits before after
