-- ===== src/Slurm/Sacct.antt =====
-- `_retrieve_job_status` of natsprovider/slurmprovider/SlurmProvider.py: what sacct says of the jobs,
-- cached for ten seconds. What sacct answers, or the exception of the call, is an argument.
use interlink_condorce_plugi.Prelude.{
  ℕ, zero, suc, ◌+◌, ◌-◌, Text, codes, List, [], ◌∷◌, ◌++◌, Option, none, some, Bool, true, false,
  not, ◌||◌, ltb, split_at, Result, ok, err, value_error, contains, nat_eq, list_eq, if◌then◌else◌,
}
use interlink_condorce_plugi.Prelude.Dicts.{Dict, get, has, put}
use interlink_condorce_plugi.Slurm.{Squeue, QueryTime, never, processing, at}

unfoldable pub is_processing : QueryTime → Bool
is_processing processing = true
is_processing never = false
is_processing (at t) = false

-- The loop that waits for another query. `others i` is what the other callbacks do to the state
-- during the sleep `i`.
unfoldable pub wait : (others : ℕ → Squeue → Squeue) → (rounds i : ℕ) → Squeue → Squeue
unfolding is_processing
wait others zero i s = s
wait others (suc n) i s =
    let later = wait others n (i + 1) (others i s) in
    if is_processing s.cached_squeue_time then later else s

unfoldable pub is_old : ℕ → QueryTime → Bool
is_old now never = true
is_old now processing = false
is_old now (at t) = ltb (t + 10_000_000) now

-- the condition of a cache miss
unfoldable pub is_miss : ℕ → Text → Squeue → Bool
unfolding is_processing is_old has
is_miss now job_name s =
    if is_processing s.cached_squeue_time
    then false
    else is_old now s.cached_squeue_time || not (has s.cached_squeue job_name)

-- the start of the period that sacct is asked about; `strftime` prints a time
unfoldable pub starttime : (strftime : ℕ → Text) → QueryTime → Text
starttime strftime (at t) = strftime (t - 600_000_000)
starttime strftime _ = codes "now-1day"

unfoldable pub user_selector : Option Text → List Text
user_selector none = []
user_selector (some username) = codes "--user" ∷ username ∷ []

unfoldable pub sacct_command :
    (strftime : ℕ → Text)
    → (sacct_executable : Text) → (username : Option Text) → QueryTime
    → List Text
unfolding starttime user_selector
sacct_command strftime sacct_executable username last_check =
    (sacct_executable ∷ user_selector username)
    ++ (codes "--starttime"
        ∷ starttime strftime last_check
        ∷ codes "--noheader"
        ∷ codes "--format=JobName,State"
        ∷ codes "--parsable2"
        ∷ [])

-- `_job_name, _slurm_status = line.split('|')`
unfoldable pub pair_of : List Text → Result (Text × Text)
pair_of (a ∷ b ∷ []) = ok (a, b)
pair_of _ = err value_error

-- The loop over the lines. A line that cannot be read raises; what was stored before stays.
unfoldable pub store_lines : List Text → Dict Text Text → Result (Unit {0}) × Dict Text Text
unfolding contains split_at pair_of put
store_lines [] d = (ok tt, d)
store_lines (l ∷ ls) d = elim (contains l b'|') [
  | false ↦ store_lines ls d
  | true ↦ elim (pair_of (split_at b'|' l)) [
    | err e ↦ (err e, d)
    | ok (job, status) ↦ store_lines ls (put d job status)
  ]
]

-- The query; `finally` sets the time whatever happened. What starting sacct raises is an error here: the
-- handler of CalledProcessError is never reached, since `asyncio.create_subprocess_exec` does not raise
-- that exception, and is left out.
unfoldable pub query : ℕ → Result Text → Squeue → Result (Unit {0}) × Squeue
unfolding store_lines
query done (err e) s = (err e, record s { cached_squeue_time = at done })
query done (ok stdout) s =
    let (r, d) = store_lines (split_at b'\n' stdout) s.cached_squeue in
    (r, record s { cached_squeue = d; cached_squeue_time = at done })

-- the result of the query, if there is one, before the last line of the method
unfoldable pub answer_of : Text → Result (Unit {0}) × Squeue → Result (Option Text) × Squeue
unfolding get
answer_of job_name (err e, s) = (err e, s)
answer_of job_name (ok _, s) = (ok (get s.cached_squeue job_name), s)

unfoldable pub after_wait :
    (now done : ℕ) → Result Text → Text → Squeue → Result (Option Text) × Squeue
after_wait now done sacct job_name s =
    if is_miss now job_name s
    then answer_of job_name (query done sacct s)
    else answer_of job_name (ok tt, s)

unfoldable pub retrieve_job_status :
    (others : ℕ → Squeue → Squeue)
    → (now done : ℕ) → Result Text
    → Text
    → Squeue
    → Result (Option Text) × Squeue
retrieve_job_status others now done sacct job_name s =
    after_wait now done sacct job_name (wait others 50 0 s)
