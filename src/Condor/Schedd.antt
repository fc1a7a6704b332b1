-- ===== src/Condor/Schedd.antt =====
-- The queries of natsprovider/condor/CondorConfiguration.py. The state is the attribute `_schedd`, of
-- which the type is a parameter. `token i` is what becomes of `_ensure_token` in the attempt `i`.
use interlink_condorce_plugi.Prelude.{
  ℕ, zero, suc, ◌+◌, List, [], ◌∷◌, Option, none, some, Result, ok, err, attribute_error,
  htcondor_exception, key_error, nat_eq, if◌then◌else◌,
}
use interlink_condorce_plugi.Prelude.Dicts.{Dict, get, put}
use interlink_condorce_plugi.Action.{Action, lift, ◌>>=◌}
use interlink_condorce_plugi.Condor.{
  CondorJob, CondorJobStatus, status_of_code, is_io_error, retry, condor_attempts,
}

module _ {S : Type 0} where
  -- The loop of `get_schedd`, which goes on after a success.
  unfoldable pub locate_loop :
      (locate : ℕ → Result S) → (remaining i : ℕ) → Action (Option S) (Unit {0})
  unfolding is_io_error
  locate_loop locate zero i s = elim (locate i) [ ok d ↦ (ok tt, some d) | err e ↦ (err e, s) ]
  locate_loop locate (suc n) i s = elim (locate i) [
    | ok d ↦ locate_loop locate n (i + 1) (some d)
    | err e ↦
        let again = locate_loop locate n (i + 1) s in if is_io_error e then again else (err e, s)
  ]

  -- `return self._schedd`
  unfoldable pub attribute : Option S → Result S
  attribute none = err attribute_error
  attribute (some d) = ok d

  unfoldable pub after_loop : Result (Unit {0}) × Option S → Result S × Option S
  unfolding attribute
  after_loop (err e, s) = (err e, s)
  after_loop (ok _, s) = (attribute s, s)

  unfoldable pub get_schedd : Result (Unit {0}) → (locate : ℕ → Result S) → Action (Option S) S
  unfolding locate_loop after_loop
  get_schedd token locate s = elim token [
    | err e ↦ (err e, s)
    | ok _ ↦ elim s [
      | some d ↦ (ok d, some d)
      | none ↦ after_loop (locate_loop locate condor_attempts 0 none)
    ]
  ]

-- what is asked of the outside in each attempt
pub record Remote (S : Type 0) : Type 0 where
  pub token : ℕ → Result (Unit {0})
  pub locate : ℕ → ℕ → Result S
  pub query : ℕ → S → Result (List CondorJob)

-- `ret[-1]`, after the test for an empty list
unfoldable pub last_job : List CondorJob → Result CondorJob
last_job [] = err htcondor_exception
last_job (j ∷ []) = ok j
last_job (j ∷ k ∷ js) = last_job (k ∷ js)

-- `{int(j['ClusterId']): j for j in schedd.query()}`
unfoldable pub by_cluster : List CondorJob → Dict ℕ CondorJob → Dict ℕ CondorJob
unfolding put
by_cluster [] d = d
by_cluster (j ∷ js) d = by_cluster js (put d j.cluster_id j)

unfoldable pub entry : Dict ℕ CondorJob → ℕ → Result CondorJob
unfolding get
entry d job_id = elim (get d job_id) [ none ↦ err key_error | some j ↦ ok j ]

module _ {S : Type 0} where
  -- an attempt: the schedd, what it lists, and what is made of the list
  unfoldable pub asked :
      {A : Type 0} (remote : Remote S) → (List CondorJob → Result A) → ℕ → Action (Option S) A
  unfolding get_schedd
  asked remote use_jobs i = do
    schedd ← get_schedd (remote.token i) (remote.locate i)
    jobs ← lift (remote.query i schedd)
    lift (use_jobs jobs)

  -- `remote.query` answers the query with the constraint on the name here
  unfoldable pub query_by_name : Remote S → Action (Option S) CondorJob
  unfolding retry is_io_error asked last_job
  query_by_name remote = retry is_io_error (asked remote last_job) condor_attempts 0

  unfoldable pub query_all : Remote S → Action (Option S) (Dict ℕ CondorJob)
  unfolding retry is_io_error asked by_cluster
  query_all remote =
      retry is_io_error (asked remote (λ js. ok (by_cluster js []))) condor_attempts 0

  unfoldable pub query_one : Remote S → (job_id : ℕ) → Action (Option S) CondorJob
  unfolding retry is_io_error asked by_cluster entry
  query_one remote job_id =
      retry is_io_error (asked remote (λ js. entry (by_cluster js []) job_id)) condor_attempts 0

  unfoldable pub status_by_name : Remote S → Action (Option S) CondorJobStatus
  unfolding query_by_name status_of_code
  status_by_name remote = do job ← query_by_name remote; lift (status_of_code job.job_status)

  unfoldable pub status : Remote S → (job_id : ℕ) → Action (Option S) CondorJobStatus
  unfolding query_all entry status_of_code
  status remote job_id = do
    jobs ← query_all remote
    job ← lift (entry jobs job_id)
    lift (status_of_code job.job_status)
